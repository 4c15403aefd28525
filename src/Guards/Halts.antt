-- ===== src/Guards/Halts.antt =====
-- When the guards of glassbox/supervisor/guards.py halt, and that a lower equity never undoes it.
use glassbox_ai_quant.Prelude.{ℕ, ◌≤◌, ◌≡◌, ◌↔◌, false, arith}
use glassbox_ai_quant.Prelude.Int.{pos, ◌-ℤ◌, ◌*ℤ◌, neg, ◌≤ℤ◌, ◌<ℤ◌, int_laws, scaled_parts}
use glassbox_ai_quant.Prelude.Decimal.{Decimal}
use glassbox_ai_quant.Config.{Config}
use glassbox_ai_quant.Guards.{
  GuardAction, continue, halt_session, halt_hard, change_pct, GuardInput, daily_of, drawdown_of,
  evaluate_guards,
}
use glassbox_ai_quant.Prelude.Rounding.{over_mono}

abbrev pub HasBaseline : GuardInput → Type 0
HasBaseline i = (pos 0 <ℤ i.session_start_equity) × (pos 0 <ℤ i.peak_equity)

-- Within every limit.
abbrev pub IsWithin : GuardInput → Config → Type 0
IsWithin i cfg =
    (neg cfg.risk.max_drawdown_halt_pct <ℤ drawdown_of i)
    × (neg cfg.risk.daily_loss_halt_pct <ℤ daily_of i)
    × (i.heartbeat_age_seconds ≤ℤ i.heartbeat_timeout)

-- The guards let trading go on exactly when there is no operator stop and, once both baselines are
-- there, the drawdown, the day's loss and the heartbeat are within their limits.
pub continue_exact :
    (i : GuardInput) (cfg : Config)
    → ((evaluate_guards i cfg).action ≡ continue)
      ↔ ((i.kill_switch ≡ false) × (HasBaseline i → IsWithin i cfg))
unfolding evaluate_guards
continue_exact i cfg = (λ h. (ground arith, λ b. ground arith), λ h. ground arith)

-- The verdicts by severity.
abbrev pub severity : GuardAction → ℕ
severity continue = 0
severity halt_session = 1
severity halt_hard = 2

abbrev with_equity : Decimal → GuardInput → GuardInput
with_equity e i = record i { equity = e }

-- A change from a positive baseline grows with the equity.
change_pct_mono :
    (a b base : Decimal) → pos 0 <ℤ base → a ≤ℤ b → change_pct a base ≤ℤ change_pct b base
unfolding change_pct
change_pct_mono a b base p h =
    over_mono (pos 100 *ℤ (a -ℤ base)) (pos 100 *ℤ (b -ℤ base)) base p
      (omega (int_laws, scaled_parts 100 (a -ℤ base), scaled_parts 100 (b -ℤ base)))

-- With all else equal, an equity that is no higher never gets a milder verdict.
pub severity_antitone :
    (i : GuardInput) (cfg : Config) (e : Decimal)
    → e ≤ℤ i.equity
    → severity (evaluate_guards i cfg).action
      ≤ severity (evaluate_guards (with_equity e i) cfg).action
unfolding evaluate_guards
severity_antitone i cfg e h = ground (
  arith,
  change_pct_mono e i.equity i.session_start_equity,
  change_pct_mono e i.equity i.peak_equity,
)
