-- ===== src/Execution/Lifecycle.antt =====
-- glassbox/execution/lifecycle.py: what each tick makes of the orders in flight. The texts that the
-- functions return are left out; `submit_structure` is the only call whose exception leaves `sync`,
-- and a pass says whether it did.
use glassbox_ai_quant.Prelude.{
  if◌then◌else◌, contains, ℕ, Bool, false, Option, none, some, List, [], ◌∷◌, map,
}
use glassbox_ai_quant.Prelude.Decimal.{Decimal}
use glassbox_ai_quant.Clock.{Instant}
use glassbox_ai_quant.Config.{Config}
use glassbox_ai_quant.Store.Rows.{
  PositionStatus, opening, closing, Intent, to_open, to_close, OrderStatus, pending, submitted,
  filled, canceled, expired,
}
use glassbox_ai_quant.Store.{Order, Position, orders_in_flight, latest_order_for, open_positions}
use glassbox_ai_quant.Execution.Ids.{IdText}
use glassbox_ai_quant.Execution.Router.{
  BrokerStatus, order_filled, order_canceled, order_rejected, order_expired, order_live,
  order_other, BrokerOrder, Broker, lifecycle_poll_error, Session, log, poll,
}
use glassbox_ai_quant.Execution.Lifecycle.Outcomes.{on_dead, maybe_void_unconfirmed, on_fill}
use glassbox_ai_quant.Execution.Lifecycle.Escalation.{maybe_expire}
pub mod Prices
pub mod Outcomes
pub mod Escalation
pub mod Steps
pub mod Passes
pub mod Sync
pub mod Sweep
pub mod Bounds
pub mod Fates
pub mod Orphans
pub mod Closes

-- `"open" if status == "opening" else "close"`, for a transitional status
abbrev pub awaited : PositionStatus → Option Intent
awaited opening = some to_open
awaited closing = some to_close
awaited _ = none

module _ {W : Type 0} (broker : Broker W) (digest : IdText → ℕ) (cfg : Config) (learns : Bool) where
  -- What follows a poll.
  unfoldable pub act_on :
      Order → Instant → BrokerStatus → Option Decimal → Session W → Session W × Bool
  act_on o now order_filled fill s = (on_fill broker learns o fill now s, false)
  act_on o now order_canceled fill s = (on_dead o canceled s, false)
  act_on o now order_rejected fill s = (on_dead o OrderStatus.rejected s, false)
  act_on o now order_expired fill s = (on_dead o expired s, false)
  act_on o now order_live fill s = maybe_expire broker digest cfg o now s
  act_on o now order_other fill s = (s, false)

  unfoldable pub after_poll : Order → Instant → Session W × Option BrokerOrder → Session W × Bool
  after_poll o now (s, none) =
      (maybe_void_unconfirmed cfg o now (log (lifecycle_poll_error o.client_order_id) s), false)
  after_poll o now (s, some b) = act_on o now b.status b.filled_avg_price s

  -- The body of the loop over the orders in flight.
  unfoldable pub handle : Instant → Order → Session W → Session W × Bool
  handle now o s = after_poll o now (poll broker o.client_order_id s)

  -- The loop, which an exception ends.
  unfoldable pub handle_all : Instant → List Order → Session W → Session W × Bool
  handle_all now [] s = (s, false)
  handle_all now (o ∷ rest) s =
      let r = handle now o s in let after = handle_all now rest r.0 in if r.1 then r else after

  -- The recorded status of an orphan's order decides.
  abbrev pub resolve_as : OrderStatus → Instant → Order → Session W → Session W
  resolve_as filled now o s = on_fill broker learns o o.filled_price now s
  resolve_as pending now o s = s
  resolve_as submitted now o s = s
  resolve_as st now o s = on_dead o st s

  abbrev pub resolve : Instant → Order → Session W → Session W
  resolve now o s = resolve_as o.status now o s

  abbrev pub resolve_latest : Instant → Option Order → Session W → Session W
  resolve_latest now none s = s
  resolve_latest now (some o) s = resolve now o s

  abbrev pub sweep_for : Instant → Position → Option Intent → Session W → Session W
  sweep_for now row none s = s
  sweep_for now row (some i) s = resolve_latest now (latest_order_for row.position_id i s.tables) s

  -- The body of the loop of `_sweep_orphans`, over the ids of the positions with an order in flight.
  unfoldable pub sweep_row : Instant → List ℕ → Position → Session W → Session W
  sweep_row now in_flight row s =
      if contains row.position_id in_flight then s else sweep_for now row (awaited row.status) s

  unfoldable pub sweep_rows : Instant → List ℕ → List Position → Session W → Session W
  sweep_rows now in_flight [] s = s
  sweep_rows now in_flight (row ∷ rows) s =
      sweep_rows now in_flight rows (sweep_row now in_flight row s)

  -- `_sweep_orphans`
  unfoldable pub sweep_orphans : Instant → Session W → Session W
  sweep_orphans now s =
      sweep_rows now (map (λ (o : Order). o.position_id) (orders_in_flight s.tables))
        (open_positions s.tables) s

  -- `sync`
  unfoldable pub sync : Instant → Session W → Session W × Bool
  sync now s =
      let r = handle_all now (orders_in_flight s.tables) s in
      let swept = sweep_orphans now r.0 in if r.1 then r else (swept, false)
