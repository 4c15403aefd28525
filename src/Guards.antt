-- ===== src/Guards.antt =====
-- glassbox/supervisor/guards.py: the account guards, the peak and the day's baseline. What the broker
-- answers for its own peak is an argument, and so is the market's date.
pub mod Halts
pub mod Peak
use glassbox_ai_quant.Prelude.{◌==◌, if◌then◌else◌, ℕ, Bool, false, ◌||◌, Option, none, some}
use glassbox_ai_quant.Prelude.Int.{pos, ◌-ℤ◌, ◌*ℤ◌, neg, ltb_ℤ, leb_ℤ, ◌==ℤ◌, max_ℤ}
use glassbox_ai_quant.Prelude.Decimal.{Decimal, over}
use glassbox_ai_quant.Config.{Config}
use glassbox_ai_quant.SystemState.{
  Guard, kill_switch_guard, drawdown_guard, daily_loss_guard, heartbeat_guard, SystemState,
}

pub data GuardAction : Type 0 where
  continue halt_session halt_hard : GuardAction

-- One constructor for each text of the code.
pub data GuardReason : Type 0 where
  operator_stop no_baseline drawdown_breached daily_loss_breached : GuardReason
  heartbeat_stale within_limits : GuardReason

pub record GuardVerdict : Type 0 where
  pub action : GuardAction
  pub reason : GuardReason
  pub daily_pnl_pct : Decimal
  pub drawdown_pct : Decimal
  pub guard : Option Guard

-- `100 * (equity - base) / base`
unfoldable pub change_pct : Decimal → Decimal → Decimal
unfolding over ◌*ℤ◌ ◌-ℤ◌
change_pct equity base = over (pos 100 *ℤ (equity -ℤ base)) base

abbrev verdict : GuardAction → GuardReason → Decimal → Decimal → Option Guard → GuardVerdict
verdict a r d p g = record {
  action = a;
  reason = r;
  daily_pnl_pct = d;
  drawdown_pct = p;
  guard = g;
}

-- What the guards are given, besides the configuration.
pub record GuardInput : Type 0 where
  pub equity : Decimal
  pub session_start_equity : Decimal
  pub peak_equity : Decimal
  pub kill_switch : Bool
  pub heartbeat_age_seconds : Decimal
  pub heartbeat_timeout : Decimal

abbrev pub daily_of : GuardInput → Decimal
daily_of i = change_pct i.equity i.session_start_equity

abbrev pub drawdown_of : GuardInput → Decimal
drawdown_of i = change_pct i.equity i.peak_equity

unfoldable pub evaluate_guards : GuardInput → Config → GuardVerdict
evaluate_guards i cfg =
    if i.kill_switch
    then verdict halt_hard operator_stop (pos 0) (pos 0) (some kill_switch_guard)
    else if leb_ℤ i.session_start_equity (pos 0) || leb_ℤ i.peak_equity (pos 0)
    then verdict continue no_baseline (pos 0) (pos 0) none
    else if leb_ℤ (drawdown_of i) (neg cfg.risk.max_drawdown_halt_pct)
    then verdict halt_hard drawdown_breached (daily_of i) (drawdown_of i) (some drawdown_guard)
    else if leb_ℤ (daily_of i) (neg cfg.risk.daily_loss_halt_pct)
    then verdict halt_session daily_loss_breached (daily_of i) (drawdown_of i)
        (some daily_loss_guard)
    else if ltb_ℤ i.heartbeat_timeout i.heartbeat_age_seconds
    then verdict halt_session heartbeat_stale (daily_of i) (drawdown_of i) (some heartbeat_guard)
    else verdict continue within_limits (daily_of i) (drawdown_of i) none

-- `float(store.get_state(PEAK_EQUITY_KEY, "0") or 0)`
abbrev pub stored_peak : SystemState → Decimal
stored_peak s = elim s.peak_equity [ none ↦ pos 0 | some p ↦ p ]

-- The candidates' maximum; a broker peak of 0 counts as absent.
pub highest_of : Decimal → Decimal → Option Decimal → Decimal
unfolding max_ℤ
highest_of peak equity none = max_ℤ peak equity
highest_of peak equity (some b) =
    if b ==ℤ pos 0 then max_ℤ peak equity else max_ℤ (max_ℤ peak equity) b

unfoldable pub update_peak_equity : Decimal → Option Decimal → SystemState → Decimal × SystemState
unfolding highest_of
update_peak_equity equity broker_peak s =
    let highest = highest_of (stored_peak s) equity broker_peak in
    (highest, if ltb_ℤ (stored_peak s) highest then record s { peak_equity = some highest } else s)

abbrev same_day : Option ℕ → ℕ → Bool
same_day none today = false
same_day (some d) today = d == today

-- `float(store.get_state(SESSION_START_EQUITY_KEY) or equity)`
abbrev baseline_or : Option Decimal → Decimal → Decimal
baseline_or none equity = equity
baseline_or (some b) equity = b

abbrev roll : Decimal → ℕ → SystemState → SystemState
roll equity today s = record s {
  session_start_date = some today;
  session_start_equity = some equity;
}

unfoldable pub session_baseline : Decimal → ℕ → SystemState → Decimal × SystemState
session_baseline equity today s =
    let s' = if same_day s.session_start_date today then s else roll equity today s in
    (baseline_or s'.session_start_equity equity, s')
