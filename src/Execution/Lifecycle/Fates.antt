-- ===== src/Execution/Lifecycle/Fates.antt =====
-- What the end of an order makes of the position that waits for it, by `_on_fill` and `_on_dead` of
-- glassbox/execution/lifecycle.py.
use glassbox_ai_quant.Prelude.{
  Bool-cases, Option-cases, value_or, Dict, lookup, ℕ, ◌≡◌, refl, sym, ap, ◌∙◌, ◌≢◌, inl, inr, Bool,
  Option, none, some, arith,
}
use glassbox_ai_quant.Prelude.Table.{find_row-update_rows}
use glassbox_ai_quant.Prelude.Decimal.{Decimal}
use glassbox_ai_quant.Prelude.Int.{pos}
use glassbox_ai_quant.Clock.{Instant}
use glassbox_ai_quant.Store.Rows.{
  PositionStatus, opening, opened, closing, closed, failed, Intent, to_open, to_close, OrderStatus,
  pending, submitted, filled, canceled, expired,
}
use glassbox_ai_quant.Store.{
  Order, by_barrier, Position, Tables, update_order, update_position, get_position, close_position,
  update_bandit,
}
use glassbox_ai_quant.Execution.Router.{
  Broker, fill_spot_refresh_skipped, fill_risk_recompute_skipped, Session, set_status, store,
}
use glassbox_ai_quant.Execution.Lifecycle.Outcomes.{
  entered, filled_loss, realized_pnl, barrier_of, is_win, feed_learners, log_if_none, leave, revive,
  after_death, on_dead, enter, after_fill, on_fill,
}
use glassbox_ai_quant.Execution.Lifecycle.{awaited}
use glassbox_ai_quant.Execution.Lifecycle.Passes.{log_if_none_keeps, log_if_unread_keeps}

-- The status of a position once the order it waited for has ended so.
abbrev pub fate : Intent → OrderStatus → PositionStatus
fate to_open filled = opened
fate to_open _ = failed
fate to_close filled = closed
fate to_close _ = opened

-- A position of this id with this status.
abbrev pub HasStatus : ℕ → PositionStatus → Tables → Type 0
HasStatus k st t = (row : Position) × (get_position k t ≡ some row) × (row.status ≡ st)

pub get_position-update :
    (k : ℕ) (f : Position → Position) (t : Tables) (r : Position)
    → ((p : Position) → (f p).position_id ≡ p.position_id)
    → get_position k t ≡ some r
    → get_position k (update_position k f t) ≡ some (f r)
unfolding get_position update_position
get_position-update k f t r keeps h =
    rw (find_row-update_rows (λ (p : Position). p.position_id) k k f keeps t.positions, h)
      (ground arith)

get_position-order :
    (k c : ℕ) (f : Order → Order) (t : Tables)
    → get_position k (update_order c f t) ≡ get_position k t
unfolding get_position update_order
get_position-order k c f t = refl

feed_keeps :
    (learns won : Bool) (k : ℕ) (row : Position) (t : Tables)
    → get_position k (feed_learners learns row won t) ≡ get_position k t
unfolding get_position update_bandit
feed_keeps learns won k row t = elim (Option-cases row.regime) [
  | inl n ↦ rw n refl
  | inr (g, n) ↦ rw n (elim (Bool-cases learns) [ inl e ↦ rw e refl | inr e ↦ rw e refl ])
]

fate_dead : (i : Intent) (os : OrderStatus) → os ≢ filled → fate i os ≡ fate i canceled
fate_dead to_open pending ne = refl
fate_dead to_open submitted ne = refl
fate_dead to_open filled ne = absurd (ne refl)
fate_dead to_open canceled ne = refl
fate_dead to_open OrderStatus.rejected ne = refl
fate_dead to_open expired ne = refl
fate_dead to_close pending ne = refl
fate_dead to_close submitted ne = refl
fate_dead to_close filled ne = absurd (ne refl)
fate_dead to_close canceled ne = refl
fate_dead to_close OrderStatus.rejected ne = refl
fate_dead to_close expired ne = refl

reopened :
    (k : ℕ) (t : Tables) (r : Position) (d : Dict ℕ)
    → get_position k t ≡ some r
    → get_position k
        (update_position k (λ p. record p { status = opened }) (record t { close_attempts = d }))
      ≡ some (record r { status = opened })
unfolding get_position
reopened k t r d h =
    get_position-update k (λ p. record p { status = opened }) (record t { close_attempts = d }) r
      (λ p. refl) h

module _ {W : Type 0} where
  pub leave_row :
      (learns : Bool) (k : ℕ) (row : Position) (fill : Option Decimal) (now : Instant)
      (s : Session W)
      → get_position k s.tables ≡ some row
      → get_position k (leave learns k row fill now s).tables
        ≡ some (record row {
          status = closed;
          exit_barrier = some (by_barrier (barrier_of (lookup k s.tables.close_barriers)));
          meta_label = some (is_win (realized_pnl row fill));
          realized_pnl = some (value_or (pos 0) (realized_pnl row fill));
          closed_at = some now;
        })
  unfolding leave close_position
  leave_row learns k row fill now s h =
      feed_keeps learns _ k row _ ∙ get_position-update k _ s.tables row (λ p. refl) h

  revive_status :
      (i : Intent) (st : PositionStatus) (os : OrderStatus) (k : ℕ) (row : Position) (s : Session W)
      → get_position k s.tables ≡ some row
      → awaited st ≡ some i
      → os ≢ filled
      → HasStatus k (fate i os) (revive i st k s).tables
  unfolding revive
  revive_status to_open opening os k row s h w ne = (
    record row { status = failed },
    get_position-update k _ s.tables row (λ p. refl) h,
    sym (fate_dead to_open os ne),
  )
  revive_status to_close closing os k row s h w ne =
      (record row { status = opened }, reopened k s.tables row _ h, sym (fate_dead to_close os ne))
  revive_status to_open opened os k row s h w ne = absurd (ground (arith, w))
  revive_status to_open closing os k row s h w ne = absurd (ground (arith, w))
  revive_status to_open closed os k row s h w ne = absurd (ground (arith, w))
  revive_status to_open failed os k row s h w ne = absurd (ground (arith, w))
  revive_status to_close opening os k row s h w ne = absurd (ground (arith, w))
  revive_status to_close opened os k row s h w ne = absurd (ground (arith, w))
  revive_status to_close closed os k row s h w ne = absurd (ground (arith, w))
  revive_status to_close failed os k row s h w ne = absurd (ground (arith, w))

  after_death_status :
      (o : Order) (os : OrderStatus) (row : Position) (found : Option Position) (s : Session W)
      → found ≡ some row
      → get_position o.position_id s.tables ≡ some row
      → awaited row.status ≡ some o.intent
      → os ≢ filled
      → HasStatus o.position_id (fate o.intent os) (after_death o found s).tables
  after_death_status o os row none s e h w ne = absurd (ground (arith, e))
  after_death_status o os row (some r) s e h w ne =
      revive_status o.intent r.status os o.position_id row s h (ap awaited (ground (arith, e)) ∙ w)
        ne

  pub on_dead_status :
      (o : Order) (os : OrderStatus) (row : Position) (s : Session W)
      → get_position o.position_id s.tables ≡ some row
      → awaited row.status ≡ some o.intent
      → os ≢ filled
      → HasStatus o.position_id (fate o.intent os) (on_dead o os s).tables
  unfolding on_dead
  on_dead_status o os row s h w ne =
      let same = get_position-order o.position_id o.client_order_id (set_status os) s.tables ∙ h in
      after_death_status o os row _ (store (update_order o.client_order_id (set_status os)) s) same
        same w ne

module _ {W : Type 0} (broker : Broker W) (learns : Bool) where
  enter_row :
      (k : ℕ) (row : Position) (fill : Option Decimal) (s : Session W)
      → get_position k s.tables ≡ some row
      → get_position k (enter broker learns k row fill s).tables
        ≡ some (
            entered
              (broker.spot row.structure.underlying s.world).1
              fill
              (filled_loss row fill)
              row)
  unfolding enter
  enter_row k row fill s h =
      let read = broker.spot row.structure.underlying s.world in
      let s' = log_if_none read.1 (fill_spot_refresh_skipped k) (record s { world = read.0 }) in
      rw
        (
          log_if_unread_keeps fill (filled_loss row fill) (fill_risk_recompute_skipped k) s',
          log_if_none_keeps read.1 (fill_spot_refresh_skipped k) (record s { world = read.0 }),
        )
        (get_position-update k (entered read.1 fill (filled_loss row fill)) s.tables row
          (λ p. unfold entered in refl) h)

  after_fill_status :
      (i : Intent) (k : ℕ) (row : Position) (found : Option Position) (fill : Option Decimal)
      (now : Instant) (s : Session W)
      → found ≡ some row
      → get_position k s.tables ≡ some row
      → HasStatus k (fate i filled) (after_fill broker learns i k found fill now s).tables
  after_fill_status i k row none fill now s e h = absurd (ground (arith, e))
  after_fill_status to_open k row (some r) fill now s e h =
      (_, enter_row k r fill s (h ∙ sym e), unfold entered in refl)
  after_fill_status to_close k row (some r) fill now s e h =
      (_, leave_row learns k r fill now s (h ∙ sym e), refl)

  pub on_fill_status :
      (o : Order) (fill : Option Decimal) (now : Instant) (row : Position) (s : Session W)
      → get_position o.position_id s.tables ≡ some row
      → HasStatus o.position_id (fate o.intent filled) (on_fill broker learns o fill now s).tables
  unfolding on_fill
  on_fill_status o fill now row s h =
      let same = get_position-order o.position_id o.client_order_id _ s.tables ∙ h in
      after_fill_status o.intent o.position_id row _ fill now _ same same
