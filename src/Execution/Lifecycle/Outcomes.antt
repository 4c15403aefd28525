-- ===== src/Execution/Lifecycle/Outcomes.antt =====
-- glassbox/execution/lifecycle.py: what the end of an order makes of its position. The texts that the
-- functions return are left out.
use glassbox_ai_quant.Prelude.{
  if◌then◌else◌, is_some, value_or, lookup, insert, ℕ, ◌+◌, Bool, not, ◌&&◌, Option, none, some,
}
use glassbox_ai_quant.Prelude.Int.{pos, ◌-ℤ◌, ◌*ℤ◌, neg, ltb_ℤ, leb_ℤ}
use glassbox_ai_quant.Prelude.Decimal.{Decimal}
use glassbox_ai_quant.Clock.{Instant}
use glassbox_ai_quant.Config.{Config}
use glassbox_ai_quant.Structures.{Result, err, ok, max_loss_per_spread}
use glassbox_ai_quant.Manage.Views.{Barrier, time}
use glassbox_ai_quant.Store.Rows.{
  PositionStatus, opening, opened, closing, failed, Intent, to_open, to_close, OrderStatus, filled,
  canceled, is_pending,
}
use glassbox_ai_quant.Store.{
  Order, by_barrier, Position, Tables, update_order, update_position, get_position, close_position,
  update_bandit, counter,
}
use glassbox_ai_quant.Execution.Router.{
  Broker, OrderEvent, order_voided_unconfirmed, fill_spot_refresh_skipped,
  fill_risk_recompute_skipped, entry_filled, close_filled, entry_dead, close_dead, Session,
  set_status, log, store,
}
use glassbox_ai_quant.Execution.Lifecycle.Prices.{base_budget}

-- `_age_seconds`
abbrev pub age_seconds : Order → Instant → Decimal
age_seconds o now = now -ℤ o.created_at

abbrev pub or_old : Option Decimal → Option Decimal → Option Decimal
or_old none old = old
or_old (some x) old = some x

-- `updates`, with what was read and computed
unfoldable pub entered : Option Decimal → Option Decimal → Option Decimal → Position → Position
entered spot fill loss r = record r {
  status = opened;
  entry_spot = or_old spot r.entry_spot;
  entry_price = or_old fill r.entry_price;
  max_loss = value_or r.max_loss loss;
}

abbrev pub loss_result : ℕ → Result Decimal → Option Decimal
loss_result qty (err e) = none
loss_result qty (ok m) = some (pos qty *ℤ m)

-- `max_loss_per_spread(structure, fill) * int(row["qty"])`; nothing where it raises or has no fill
unfoldable pub filled_loss : Position → Option Decimal → Option Decimal
filled_loss row none = none
filled_loss row (some p) = loss_result row.qty (max_loss_per_spread row.structure p)

-- `(-fill - entry) * 100 * int(row["qty"])`
unfoldable pub realized_pnl : Position → Option Decimal → Option Decimal
realized_pnl row none = none
realized_pnl row (some p) =
    some (pos row.qty *ℤ (pos 100 *ℤ (neg p -ℤ value_or (pos 0) row.entry_price)))

-- `trader.store.get_state(...) or str(Barrier.TIME)`
abbrev pub barrier_of : Option Barrier → Barrier
barrier_of none = time
barrier_of (some b) = b

abbrev pub is_win : Option Decimal → Bool
is_win realized = ltb_ℤ (pos 0) (value_or (pos 0) realized)

-- `trader.feed_learners`, where `learns` says that there is a bandit
abbrev pub feed_learners : Bool → Position → Bool → Tables → Tables
feed_learners learns row won t = elim row.regime [
  | none ↦ t
  | some g ↦ if learns then update_bandit row.structure.kind g won t else t
]

module _ {W : Type 0} where
  abbrev pub log_if_none : Option Decimal → OrderEvent → Session W → Session W
  log_if_none none e s = log e s
  log_if_none (some x) e s = s

  abbrev pub log_if_unread : Option Decimal → Option Decimal → OrderEvent → Session W → Session W
  log_if_unread none loss e s = s
  log_if_unread (some p) none e s = log e s
  log_if_unread (some p) (some m) e s = s

  -- The close branch of `_on_fill`.
  unfoldable pub leave : Bool → ℕ → Position → Option Decimal → Instant → Session W → Session W
  leave learns k row fill now s =
      let realized = realized_pnl row fill in
      let barrier = by_barrier (barrier_of (lookup k s.tables.close_barriers)) in
      log (close_filled k) (
        store (feed_learners learns row (is_win realized)) (
          store (close_position k barrier (some (is_win realized)) (value_or (pos 0) realized) now)
            s))

  -- `_on_dead`, once the row is read
  unfoldable pub revive : Intent → PositionStatus → ℕ → Session W → Session W
  revive to_open opening k s =
      log (entry_dead k) (store (update_position k (λ r. record r { status = failed })) s)
  revive to_close closing k s =
      let attempt = counter 0 (lookup k s.tables.close_attempts) in
      log (close_dead k) (
        store (update_position k (λ r. record r { status = opened })) (
          store
            (λ (t : Tables). record t { close_attempts = insert k (attempt + 1) t.close_attempts })
            s))
  revive _ _ k s = s

  abbrev pub after_death : Order → Option Position → Session W → Session W
  after_death o none s = s
  after_death o (some row) s = revive o.intent row.status o.position_id s

  -- `_on_dead`
  unfoldable pub on_dead : Order → OrderStatus → Session W → Session W
  on_dead o st s =
      let s' = store (update_order o.client_order_id (set_status st)) s in
      after_death o (get_position o.position_id s'.tables) s'

  -- `_maybe_void_unconfirmed`
  unfoldable pub maybe_void_unconfirmed : Config → Order → Instant → Session W → Session W
  maybe_void_unconfirmed cfg o now s =
      if not (is_some o.alpaca_order_id)
        && is_pending o.status
        && leb_ℤ (base_budget cfg.execution) (age_seconds o now)
      then log (order_voided_unconfirmed o.client_order_id)
          (store (update_order o.client_order_id (set_status canceled)) s)
      else s

module _ {W : Type 0} (broker : Broker W) (learns : Bool) where
  -- The open branch of `_on_fill`.
  unfoldable pub enter : ℕ → Position → Option Decimal → Session W → Session W
  enter k row fill s =
      let read = broker.spot row.structure.underlying s.world in
      let loss = filled_loss row fill in
      log (entry_filled k) (
        store (update_position k (entered read.1 fill loss)) (
          log_if_unread fill loss (fill_risk_recompute_skipped k)
            (log_if_none read.1 (fill_spot_refresh_skipped k) (record s { world = read.0 }))))

  abbrev pub after_fill :
      Intent → ℕ → Option Position → Option Decimal → Instant → Session W → Session W
  after_fill i k none fill now s = s
  after_fill to_open k (some row) fill now s = enter k row fill s
  after_fill to_close k (some row) fill now s = leave learns k row fill now s

  -- `_on_fill`
  unfoldable pub on_fill : Order → Option Decimal → Instant → Session W → Session W
  on_fill o fill now s =
      let c = o.client_order_id in
      let s' = store (update_order c (λ r. record r { status = filled; filled_price = fill })) s in
      after_fill o.intent o.position_id (get_position o.position_id s'.tables) fill now s'
