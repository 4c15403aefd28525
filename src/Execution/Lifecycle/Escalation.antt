-- ===== src/Execution/Lifecycle/Escalation.antt =====
-- glassbox/execution/lifecycle.py: what a resting order comes to. A pair is the session and whether
-- an exception leaves the function; only `submit_structure` raises there.
use glassbox_ai_quant.Prelude.{
  leb, if◌then◌else◌, value_or, lookup, insert, ℕ, ◌+◌, Bool, true, false, ◌||◌, Option, none, some,
}
use glassbox_ai_quant.Prelude.Int.{pos, ◌-ℤ◌, ◌*ℤ◌, ltb_ℤ, leb_ℤ}
use glassbox_ai_quant.Prelude.Decimal.{Decimal}
use glassbox_ai_quant.Clock.{Instant, IsoText, instant}
use glassbox_ai_quant.Config.{Config}
use glassbox_ai_quant.SystemState.{is_halted}
use glassbox_ai_quant.Store.Rows.{Intent, to_open, to_close}
use glassbox_ai_quant.Store.{Order, Position, Tables, get_position, counter}
use glassbox_ai_quant.Execution.Ids.{escalated, IdText, client_order_id, close_order_id}
use glassbox_ai_quant.Execution.Router.{
  Broker, entry_cancel_error, entry_expired, entry_cancel_race, close_cancel_race, entry_escalated,
  close_escalated, close_exhausted, Session, failed_submit, log, store, submit_structure, cancel,
}
use glassbox_ai_quant.Execution.Lifecycle.Prices.{
  spread_pct, entry_budget_seconds, next_rung, worse_price,
}
use glassbox_ai_quant.Execution.Lifecycle.Outcomes.{age_seconds}

-- `now >= deadline`; a deadline that does not read as one never is
abbrev pub at_deadline : Option IsoText → Instant → Bool
at_deadline (some (instant d)) now = leb_ℤ d now
at_deadline _ now = false

-- `total_age`
abbrev pub born : Option Position → Option Instant
born none = none
born (some row) = row.opened_at

abbrev pub total_age : Order → Option Instant → Instant → Decimal
total_age o none now = age_seconds o now
total_age o (some t) now = now -ℤ t

module _ {W : Type 0} where
  abbrev pub note_expiry : ℕ → Session W × Bool → Session W
  note_expiry c (s, false) = log (entry_cancel_error c) s
  note_expiry c (s, true) = log (entry_expired c) s

module _ {W : Type 0} (broker : Broker W) (digest : IdText → ℕ) (cfg : Config) where
  -- The submission of a rung, once the resting order is cancelled.
  unfoldable pub submit_rung : Order → Position → ℕ → Decimal → Session W × Bool → Session W × Bool
  submit_rung o row attempt price (s, false) = (log (entry_cancel_race o.position_id) s, false)
  submit_rung o row attempt price (s, true) =
      let counted =
        store
          (λ (t : Tables). record t {
            entry_attempts = insert o.position_id (attempt + 1) t.entry_attempts;
          })
          s in
      let r =
        submit_structure broker
          (record {
            structure = row.structure;
            qty = row.qty;
            limit_price = price;
            client_order_id = client_order_id digest row.signal_id row.structure (attempt + 1);
            position_id = o.position_id;
            closing = false;
          })
          counted in
      if failed_submit r.1 then (r.0, true) else (log (entry_escalated o.position_id) r.0, false)

  abbrev pub rung_at : Order → Position → ℕ → Option Decimal → Session W → Session W × Bool
  rung_at o row attempt none s = (s, false)
  rung_at o row attempt (some price) s =
      submit_rung o row attempt price (cancel broker o.client_order_id o.alpaca_order_id s)

  -- The price that a rung would set.
  abbrev pub rung_price : Order → Position → Option Decimal
  rung_price o row =
      let old = value_or (pos 0) o.limit_price in
      next_rung cfg.execution (value_or old row.entry_price) old
        (value_or (pos 0) (spread_pct row.features))

  -- `_escalate_entry`: the session, and whether an exception leaves it
  unfoldable pub escalate_entry :
      Order → Decimal → Option Position → Instant → Session W → Session W × Bool
  escalate_entry o total_age none now s = (s, false)
  escalate_entry o total_age (some row) now s =
      let attempt = counter 0 (lookup o.position_id s.tables.entry_attempts) in
      if is_halted s.tables.system
        || at_deadline cfg.manage.flatten_all_at now
        || leb cfg.execution.entry_ladder_steps attempt
        || ltb_ℤ total_age (pos (attempt + 1) *ℤ cfg.execution.entry_ladder_step_seconds)
      then (s, false)
      else rung_at o row attempt (rung_price o row) s

  -- The submission of a close at a worse price.
  unfoldable pub submit_worse : Order → Position → ℕ → Session W × Bool → Session W × Bool
  submit_worse o row attempt (s, false) = (log (close_cancel_race o.position_id) s, false)
  submit_worse o row attempt (s, true) =
      let counted =
        store
          (λ (t : Tables). record t {
            close_attempts = insert o.position_id (attempt + 1) t.close_attempts;
          })
          s in
      let r =
        submit_structure broker
          (record {
            structure = row.structure;
            qty = row.qty;
            limit_price = worse_price cfg.execution (value_or (pos 0) o.limit_price);
            client_order_id = close_order_id digest o.position_id escalated (attempt + 1);
            position_id = o.position_id;
            closing = true;
          })
          counted in
      if failed_submit r.1 then (r.0, true) else (log (close_escalated o.position_id) r.0, false)

  -- `_escalate_close`, once the row is read
  unfoldable pub escalate_close : Order → Option Position → Session W → Session W × Bool
  escalate_close o none s = (s, false)
  escalate_close o (some row) s =
      let attempt = counter 1 (lookup o.position_id s.tables.close_attempts) in
      if leb cfg.execution.close_max_attempts attempt
      then (log (close_exhausted o.position_id) s, false)
      else submit_worse o row attempt (cancel broker o.client_order_id o.alpaca_order_id s)

  unfoldable pub expire_entry : Order → Option Position → Instant → Session W → Session W × Bool
  expire_entry o row now s =
      let age = total_age o (born row) now in
      if ltb_ℤ age (entry_budget_seconds cfg row) then escalate_entry o age row now s else (
        note_expiry o.client_order_id (cancel broker o.client_order_id o.alpaca_order_id s),
        false,
      )

  unfoldable pub expire_close : Order → Option Position → Instant → Session W → Session W × Bool
  expire_close o row now s =
      if ltb_ℤ (age_seconds o now) cfg.execution.close_retry_seconds
      then (s, false)
      else escalate_close o row s

  abbrev pub expire_by : Intent → Order → Option Position → Instant → Session W → Session W × Bool
  expire_by to_open o row now s = expire_entry o row now s
  expire_by to_close o row now s = expire_close o row now s

  -- `_maybe_expire`
  unfoldable pub maybe_expire : Order → Instant → Session W → Session W × Bool
  maybe_expire o now s = expire_by o.intent o (get_position o.position_id s.tables) now s
