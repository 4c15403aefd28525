-- ===== src/Execution/Lifecycle/Closes.antt =====
-- What a closing order books, and how a dead one is tried again, by glassbox/execution/lifecycle.py.
use glassbox_ai_quant.Prelude.{
  is_some, value_or, lookup, lookup-insert, ℕ, ◌+◌, ◌≡◌, refl, sym, ap, ◌∙◌, ◌≢◌, Bool, true,
  Option, none, some, arith,
}
use glassbox_ai_quant.Prelude.Decimal.{Decimal}
use glassbox_ai_quant.Prelude.Int.{ℤ, pos, neg, ltb_ℤ, neg_parts, eq_of_parts, int_laws}
use glassbox_ai_quant.Clock.{Instant}
use glassbox_ai_quant.Manage.Views.{PositionView, unrealized_pnl}
use glassbox_ai_quant.Store.Rows.{closing, closed, to_close, OrderStatus, filled}
use glassbox_ai_quant.Store.{
  Order, Position, Tables, update_order, update_position, get_position, counter,
}
use glassbox_ai_quant.Execution.Ids.{CloseReason, IdText, open_text, close_text, close_order_id}
use glassbox_ai_quant.Execution.Router.{Broker, Session, set_status, store}
use glassbox_ai_quant.Execution.Lifecycle.Outcomes.{
  realized_pnl, is_win, revive, after_death, on_dead, after_fill, on_fill,
}
use glassbox_ai_quant.Execution.Lifecycle.Fates.{leave_row}

neg-neg : (a : ℤ) → neg (neg a) ≡ a
neg-neg a = omega (int_laws, neg_parts (neg a), neg_parts a, eq_of_parts (neg (neg a)) a)

abbrev value_qty : Option Position → ℕ
value_qty none = 0
value_qty (some p) = p.qty

abbrev value_entry : Option Position → Option Decimal
value_entry none = none
value_entry (some p) = p.entry_price

-- The row and the view of one position.
pub record IsViewOf (row : Position) (v : PositionView) : Type 0 where
  pub same_qty : row.qty ≡ v.qty
  pub same_entry : row.entry_price ≡ some v.entry_price

realized-unrealized :
    (row : Position) (v : PositionView)
    → IsViewOf row v
    → realized_pnl row (some (neg v.current_price)) ≡ some (unrealized_pnl v)
unfolding realized_pnl unrealized_pnl
realized-unrealized row v w = rw (w.same_qty, w.same_entry, neg-neg v.current_price) refl

get_position_filled :
    (k c : ℕ) (f : Order → Order) (t : Tables)
    → get_position k (update_order c f t) ≡ get_position k t
unfolding get_position update_order
get_position_filled k c f t = refl

module _ {W : Type 0} (broker : Broker W) (learns : Bool) where
  books_lem :
      (k : ℕ) (found : Option Position) (v : PositionView) (now : Instant) (s : Session W)
      → get_position k s.tables ≡ found
      → is_some found ≡ true
      → ((p : Position) → found ≡ some p → IsViewOf p v)
      → (booked : Position) × (get_position k
            (after_fill broker learns to_close k found (some (neg v.current_price)) now s).tables
          ≡ some booked)
        × (booked.status ≡ closed)
        × (booked.realized_pnl ≡ some (unrealized_pnl v))
        × (booked.meta_label ≡ some (ltb_ℤ (pos 0) (unrealized_pnl v)))
  books_lem k none v now s h e w = absurd (ground (arith, e))
  books_lem k (some r) v now s h e w =
      let same = realized-unrealized r v (w r refl) in
      (
        _,
        leave_row learns k r (some (neg v.current_price)) now s h,
        refl,
        ap (λ (x : Option Decimal). some (value_or (pos 0) x)) same,
        ap (λ (x : Option Decimal). some (is_win x)) same,
      )

  -- A position whose closing order fills at its current value is closed with just the profit or loss
  -- that its view shows as unrealized, and its label says whether that is above zero.
  pub close_books_mark :
      (o : Order) (row : Position) (v : PositionView) (now : Instant) (s : Session W)
      → o.intent ≡ to_close
      → get_position o.position_id s.tables ≡ some row
      → IsViewOf row v
      → (booked : Position) × (get_position o.position_id
            (on_fill broker learns o (some (neg v.current_price)) now s).tables
          ≡ some booked)
        × (booked.status ≡ closed)
        × (booked.realized_pnl ≡ some (unrealized_pnl v))
        × (booked.meta_label ≡ some (ltb_ℤ (pos 0) (unrealized_pnl v)))
  unfolding on_fill
  close_books_mark o row v now s i h w =
      let s' =
        store
          (update_order o.client_order_id
            (λ r. record r { status = filled; filled_price = some (neg v.current_price) }))
          s in
      let same = get_position_filled o.position_id o.client_order_id _ s.tables ∙ h in
      rw i (
        books_lem o.position_id (get_position o.position_id s'.tables) v now s' refl
          (ap is_some same)
          (λ p e. record {
            same_qty = ap (λ (x : Option Position). value_qty x) (sym e ∙ same) ∙ w.same_qty;
            same_entry = ap (λ (x : Option Position). value_entry x) (sym e ∙ same) ∙ w.same_entry;
          }))

module _ {W : Type 0} where
  dead_lem :
      (o : Order) (found : Option Position) (s : Session W) (row : Position)
      → o.intent ≡ to_close
      → found ≡ some row
      → row.status ≡ closing
      → counter 0 (lookup o.position_id (after_death o found s).tables.close_attempts)
        ≡ counter 0 (lookup o.position_id s.tables.close_attempts) + 1
  unfolding revive update_position
  dead_lem o none s row i e c = absurd (ground (arith, e))
  dead_lem o (some r) s row i e c =
      let reads =
        (ap (λ (x : Option Position). elim x [ none ↦ closed | some p ↦ p.status ]) e ∙ c) in
      rw (i, reads)
        (ap (counter 0) (
            lookup-insert o.position_id o.position_id
              (counter 0 (lookup o.position_id s.tables.close_attempts) + 1)
              s.tables.close_attempts)
          ∙ ground arith)

abbrev attempt_of : IdText → ℕ
attempt_of (open_text k s n) = n
attempt_of (close_text k r n) = n

-- After a closing order died, the next close of the position has another id than a close of the
-- attempt before, whatever the reasons of the two, if the digest does not collide on the two texts that
-- name the position, the reasons, and the counts of attempts after and before.
pub dead_close_fresh_id :
    {W : Type 0} (digest : IdText → ℕ) (o : Order) (st : OrderStatus) (row : Position)
    (s : Session W) (r r' : CloseReason)
    → let attempt = λ (t : Tables). counter 0 (lookup o.position_id t.close_attempts) in
      let next = close_text o.position_id r' (attempt (on_dead o st s).tables) in
      let last = close_text o.position_id r (attempt s.tables) in
      (digest next ≡ digest last → next ≡ last)
      → o.intent ≡ to_close
      → get_position o.position_id s.tables ≡ some row
      → row.status ≡ closing
      → close_order_id digest o.position_id r' (attempt (on_dead o st s).tables)
        ≢ close_order_id digest o.position_id r (attempt s.tables)
unfolding on_dead close_order_id update_order
dead_close_fresh_id digest o st row s r r' apart i h c e =
    let s' = store (update_order o.client_order_id (set_status st)) s in
    let same = get_position_filled o.position_id o.client_order_id (set_status st) s.tables ∙ h in
    let counted = dead_lem o (get_position o.position_id s'.tables) s' row i same c in
    let same_attempt : counter 0 (lookup o.position_id (on_dead o st s).tables.close_attempts)
        ≡ counter 0 (lookup o.position_id s.tables.close_attempts) =
      ap attempt_of (apart e) in
    absurd (omega (arith, same_attempt, counted))
