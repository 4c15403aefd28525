-- ===== src/SystemState.antt =====
-- The `system_state` table of glassbox/store.py, as the rows that the supervisor and the
-- reconciliation read and write, and the audit log as the list of what was appended, newest first.
-- The table holds texts: each row is kept as what its text stands for, and the empty text, which
-- the code takes for absent, is `none`.
use glassbox_ai_quant.Prelude.{is_some, ℕ, Bool, Option, none, List, [], ◌∷◌}
use glassbox_ai_quant.Prelude.Decimal.{Decimal}
use glassbox_ai_quant.Clock.{Instant}

-- Which guard of the supervisor fired: `GuardVerdict.guard`.
pub data Guard : Type 0 where
  kill_switch_guard drawdown_guard daily_loss_guard heartbeat_guard : Guard

-- `HALT_SOURCE_KEY`: who latched the halt.
pub data HaltSource : Type 0 where
  from_reconcile from_assignment from_supervisor : HaltSource

-- `HALT_KEY`: the reason of a standing halt.
pub data HaltReason : Type 0 where
  diverged assigned : HaltReason
  breached : Guard → HaltReason

pub data AuditEvent : Type 0 where
  resume halt_divergence halt_assignment : AuditEvent
  guard_breach : Guard → AuditEvent
  flatten : ℕ → ℕ → AuditEvent  -- positions closed, attempts
  flatten_incomplete : ℕ → ℕ → AuditEvent  -- positions closed, attempts
  activity_check_error : AuditEvent

pub record SystemState : Type 0 where
  pub halt_reason : Option HaltReason
  pub halt_source : Option HaltSource
  pub halt_guard : Option Guard
  pub peak_equity : Option Decimal
  pub session_start_date : Option ℕ
  pub session_start_equity : Option Decimal
  pub trader_heartbeat : Option Instant
  pub seen_assignments : List ℕ
  pub audit : List AuditEvent

-- `bool(store.get_state(HALT_KEY))`
abbrev pub is_halted : SystemState → Bool
is_halted s = is_some s.halt_reason

abbrev pub append : AuditEvent → SystemState → SystemState
append e s = record s { audit = e ∷ s.audit }

-- A fresh store.
abbrev pub fresh : SystemState
fresh = record {
  halt_reason = none;
  halt_source = none;
  halt_guard = none;
  peak_equity = none;
  session_start_date = none;
  session_start_equity = none;
  trader_heartbeat = none;
  seen_assignments = [];
  audit = [];
}
