-- ===== src/Execution/Router.antt =====
-- glassbox/execution/router.py. The broker's client is a parameter over a world that it changes; a
-- call of it gives no answer where it raises. Every call goes through the circuit breaker. Of the
-- records of the audit log the kind and the order or the position are kept.
use glassbox_ai_quant.Prelude.{
  ltb, if◌then◌else◌, ℕ, Bool, true, false, not, Option, none, some, List, ◌∷◌, map,
}
use glassbox_ai_quant.Prelude.Int.{ℤ, pos, ◌+ℤ◌, ◌-ℤ◌, ◌*ℤ◌, min_ℤ, max_ℤ}
use glassbox_ai_quant.Prelude.Decimal.{Decimal}
use glassbox_ai_quant.Prelude.Cents.{round_cents}
use glassbox_ai_quant.Clock.{Instant}
use glassbox_ai_quant.Structures.{
  LegSide, long, short, Leg, Structure, StructureError, Result, err, ok, assert_defined_risk,
}
use glassbox_ai_quant.Breaker.{CircuitBreaker, CallResult, rejected, raised, returned}
use glassbox_ai_quant.Store.Rows.{
  closing, Intent, to_open, to_close, OrderStatus, pending, submitted, filled, canceled, is_pending,
}
use glassbox_ai_quant.Store.{Order, Tables, record_order, update_order, get_order}
use glassbox_ai_quant.Breaker
pub mod Records
pub mod Submit
pub mod Legs

-- The limit of a ladder at a step: `PriceLadder.price_at`.
pub record PriceLadder : Type 0 where
  pub start : Decimal
  pub tick : Decimal
  pub max_steps : ℤ
  pub is_debit : Bool

unfoldable pub price_at : PriceLadder → ℤ → Decimal
price_at l step =
    let moved = l.tick *ℤ max_ℤ (pos 0) (min_ℤ step l.max_steps) in
    round_cents (if l.is_debit then l.start +ℤ moved else l.start -ℤ moved)

pub data PositionIntent : Type 0 where
  buy_to_open sell_to_open buy_to_close sell_to_close : PositionIntent

-- alpaca's `OptionLegRequest`
pub record LegRequest : Type 0 where
  pub symbol : ℕ
  pub ratio_qty : ℕ
  pub buys : Bool
  pub position_intent : PositionIntent

abbrev pub is_long : LegSide → Bool
is_long long = true
is_long short = false

abbrev pub intent_of : Bool → Bool → PositionIntent
intent_of true true = buy_to_close
intent_of true false = sell_to_close
intent_of false true = buy_to_open
intent_of false false = sell_to_open

abbrev pub leg_request : Bool → Leg → LegRequest
leg_request leaving l =
    let buys = if leaving then not (is_long l.side) else is_long l.side in
    record {
      symbol = l.symbol;
      ratio_qty = l.ratio_qty;
      buys = buys;
      position_intent = intent_of leaving buys;
    }

-- `_leg_requests`
unfoldable pub leg_requests : Structure → Bool → List LegRequest
leg_requests s leaving = map (leg_request leaving) s.legs

-- The arguments of `submit_structure`.
pub record Submission : Type 0 where
  pub structure : Structure
  pub qty : ℕ
  pub limit_price : Decimal
  pub client_order_id : ℕ
  pub position_id : ℕ
  pub closing : Bool

-- alpaca's `LimitOrderRequest`, of class MLEG and for the day
pub record OrderRequest : Type 0 where
  pub qty : ℕ
  pub limit_price : Decimal
  pub client_order_id : ℕ
  pub legs : List LegRequest

abbrev pub request_of : Submission → OrderRequest
request_of q = record {
  qty = q.qty;
  limit_price = q.limit_price;
  client_order_id = q.client_order_id;
  legs = leg_requests q.structure q.closing;
}

-- The broker's status of an order, as the lifecycle tells them apart: `order_live` is one of its
-- LIVE_STATES, `order_other` any text but these.
pub data BrokerStatus : Type 0 where
  order_filled order_canceled order_rejected order_expired order_live order_other : BrokerStatus

pub record BrokerOrder : Type 0 where
  pub id : ℕ
  pub status : BrokerStatus
  pub filled_avg_price : Option Decimal

-- The broker, its prices, and the two clocks that the code reads.
pub record Broker (W : Type 0) : Type 0 where
  pub submit_order : OrderRequest → W → W × Option ℕ  -- the id that it gave
  pub get_order_by_client_id : ℕ → W → W × Option BrokerOrder
  pub cancel_order_by_id : Option ℕ → W → W × Option (Unit {0})
  pub spot : ℕ → W → W × Option Decimal
  pub monotonic : W → Decimal
  pub utc_now : W → Instant

pub data OrderEvent : Type 0 where
  order_duplicate_suppressed order_submit order_error order_confirmed_late : ℕ → OrderEvent
  cancel_error order_cancel : ℕ → OrderEvent
  lifecycle_poll_error order_voided_unconfirmed entry_cancel_error entry_expired : ℕ → OrderEvent
  fill_spot_refresh_skipped fill_risk_recompute_skipped entry_filled : ℕ → OrderEvent
  close_filled entry_dead close_dead entry_cancel_race close_cancel_race : ℕ → OrderEvent
  entry_escalated close_escalated close_exhausted : ℕ → OrderEvent

-- What the router and the lifecycle work on. The audit log is the list of its records, newest first.
pub record Session (W : Type 0) : Type 0 where
  pub world : W
  pub breaker : CircuitBreaker
  pub tables : Tables
  pub audit : List OrderEvent

-- How `submit_structure` ends: it raises, returns the row that there is, or returns the broker's id.
pub data Submitted : Type 0 where
  undefined_risk : StructureError → Submitted
  no_quantity broker_error : Submitted
  existing : Order → Submitted
  placed : ℕ → Submitted

-- Whether `submit_structure` raises.
abbrev pub failed_submit : Submitted → Bool
failed_submit (existing o) = false
failed_submit (placed id) = false
failed_submit _ = true

-- `existing["status"] in ("submitted", "filled")`
abbrev pub is_sent : OrderStatus → Bool
is_sent submitted = true
is_sent filled = true
is_sent _ = false

abbrev pub set_status : OrderStatus → Order → Order
set_status st o = record o { status = st }

-- `status="submitted", alpaca_order_id=str(order.id)`
abbrev pub set_submitted : ℕ → Order → Order
set_submitted id o = record o { status = submitted; alpaca_order_id = some id }

abbrev pub intent_for : Bool → Intent
intent_for true = to_close
intent_for false = to_open

module _ {W : Type 0} where
  abbrev pub log : OrderEvent → Session W → Session W
  log e s = record s { audit = e ∷ s.audit }

  abbrev pub store : (Tables → Tables) → Session W → Session W
  store f s = record s { tables = f s.tables }

module _ {W : Type 0} {A : Type 0} where
  abbrev pub settle : Session W → W → CallResult A × CircuitBreaker → Session W × Option A
  settle s w (rejected, b) = (record s { breaker = b }, none)
  settle s w (raised, b) = (record s { world = w; breaker = b }, none)
  settle s w (returned a, b) = (record s { world = w; breaker = b }, some a)

module _ {W : Type 0} (broker : Broker W) where
  -- `self.breaker.call(f)`: an open breaker refuses the call, and `f` does not run.
  unfoldable pub guarded : {A : Type 0} → (W → W × Option A) → Session W → Session W × Option A
  guarded f s =
      let r = f s.world in
      settle s r.0 (Breaker.call (broker.monotonic s.world) (broker.monotonic r.0) r.1 s.breaker)

  -- The row that `record_order` inserts.
  abbrev pub order_of : Submission → Session W → Order
  order_of q s = record {
    client_order_id = q.client_order_id;
    alpaca_order_id = none;
    position_id = q.position_id;
    intent = intent_for q.closing;
    status = pending;
    legs = q.structure.legs;
    limit_price = some q.limit_price;
    filled_price = none;
    created_at = broker.utc_now s.world;
  }

  -- What follows the broker's answer.
  unfoldable pub conclude : ℕ → Session W × Option ℕ → Session W × Submitted
  conclude c (s, none) = (
    log (order_error c) (store (update_order c (set_status OrderStatus.rejected)) s),
    broker_error,
  )
  conclude c (s, some id) = (store (update_order c (set_submitted id)) s, placed id)

  -- The row and the audit record that are written before the broker is called.
  abbrev pub announced : Submission → Session W → Session W
  announced q s = log (order_submit q.client_order_id) (store (record_order (order_of q s)) s)

  unfoldable pub send : Submission → Session W → Session W × Submitted
  send q s =
      conclude q.client_order_id (guarded (broker.submit_order (request_of q)) (announced q s))

  unfoldable pub deliver : Submission → Option Order → Session W → Session W × Submitted
  deliver q none s = send q s
  deliver q (some o) s =
      let sent = send q s in
      if is_sent o.status
      then (log (order_duplicate_suppressed q.client_order_id) s, existing o)
      else sent

  abbrev pub checked : Submission → Result (Unit {0}) → Session W → Session W × Submitted
  checked q (err e) s = (s, undefined_risk e)
  checked q (ok _) s =
      if ltb q.qty 1 then (s, no_quantity) else deliver q (get_order q.client_order_id s.tables) s

  -- `submit_structure`
  unfoldable pub submit_structure : Submission → Session W → Session W × Submitted
  submit_structure q s = checked q (assert_defined_risk q.structure) s

  -- `row is not None and row["status"] == "pending"`
  abbrev pub is_unconfirmed : Option Order → Bool
  is_unconfirmed none = false
  is_unconfirmed (some o) = is_pending o.status

  unfoldable pub confirm : ℕ → Session W × Option BrokerOrder → Session W × Option BrokerOrder
  confirm c (s, none) = (s, none)
  confirm c (s, some o) = (
    if is_unconfirmed (get_order c s.tables)
        then log (order_confirmed_late c) (store (update_order c (set_submitted o.id)) s)
        else s,
    some o,
  )

  -- `poll`; no answer where it raises
  unfoldable pub poll : ℕ → Session W → Session W × Option BrokerOrder
  poll c s = confirm c (guarded (broker.get_order_by_client_id c) s)

  unfoldable pub note_cancel : ℕ → Session W × Option (Unit {0}) → Session W × Bool
  note_cancel c (s, none) = (log (cancel_error c) s, false)
  note_cancel c (s, some _) =
      (log (order_cancel c) (store (update_order c (set_status canceled)) s), true)

  -- `cancel`: whether it returns
  unfoldable pub cancel : ℕ → Option ℕ → Session W → Session W × Bool
  cancel c a s = note_cancel c (guarded (broker.cancel_order_by_id a) s)
