-- ===== src/Gate/Verdict.antt =====
-- `CHECKS` and `evaluate` of glassbox/gate.py.
use glassbox_ai_quant.Prelude.{all, List, [], ◌∷◌}
use glassbox_ai_quant.Config.{Config}
use glassbox_ai_quant.Gate.Context.{CheckResult, GateContext, GateDecision}
use glassbox_ai_quant.Gate.Checks.{
  check_kill_switch, check_halted, check_market_window, check_flatten_deadline, check_session_room,
  check_defined_risk, check_position_size, check_portfolio_heat, check_greeks, check_concentration,
  check_correlation, check_liquidity, check_time_to_expiry, check_daily_loss, check_drawdown,
  check_rate_limits, check_macro_blackout, check_corporate_action, check_duplicate,
  check_leg_conflict, check_cost_to_trade,
}

-- `CHECKS`, in the order of the code.
unfoldable pub run_checks : GateContext → Config → List CheckResult
run_checks ctx cfg =
    check_kill_switch ctx cfg
    ∷ check_halted ctx cfg
    ∷ check_market_window ctx cfg
    ∷ check_session_room ctx cfg
    ∷ check_flatten_deadline ctx cfg
    ∷ check_defined_risk ctx cfg
    ∷ check_position_size ctx cfg
    ∷ check_portfolio_heat ctx cfg
    ∷ check_greeks ctx cfg
    ∷ check_concentration ctx cfg
    ∷ check_correlation ctx cfg
    ∷ check_liquidity ctx cfg
    ∷ check_time_to_expiry ctx cfg
    ∷ check_daily_loss ctx cfg
    ∷ check_drawdown ctx cfg
    ∷ check_rate_limits ctx cfg
    ∷ check_macro_blackout ctx cfg
    ∷ check_corporate_action ctx cfg
    ∷ check_duplicate ctx cfg
    ∷ check_leg_conflict ctx cfg
    ∷ check_cost_to_trade ctx cfg
    ∷ []

unfoldable pub evaluate : GateContext → Config → GateDecision
unfolding run_checks
evaluate ctx cfg =
    let results = run_checks ctx cfg in
    record { approved = all (λ r. r.passed) results; checks = results }
