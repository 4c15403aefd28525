-- ===== src/Gate/Approval.antt =====
-- What `evaluate` of glassbox/gate.py approves.
use glassbox_ai_quant.Prelude.{
  all, All, ◌≤◌, ◌<◌, ◌≡◌, refl, ◌↔◌, true, false, List, [], ◌∷◌, arith,
}
use glassbox_ai_quant.Prelude.Int.{◌+ℤ◌, neg, ◌≤ℤ◌, ◌<ℤ◌}
use glassbox_ai_quant.Prelude.Decimal.{whole, percent_of}
use glassbox_ai_quant.Config.{Config}
use glassbox_ai_quant.Structures.{ok, assert_defined_risk}
use glassbox_ai_quant.Gate.Context.{CheckResult, GateContext, total_max_loss}
use glassbox_ai_quant.Gate.Checks.{check_kill_switch, check_halted, current_heat, check_duplicate}
use glassbox_ai_quant.Gate.Verdict.{run_checks, evaluate}
use glassbox_ai_quant.Gate.Admission.{
  InWindow, HasRoom, BeforeDeadline, IsSized, IsBalanced, IsSpread, IsUncorrelated, AvoidsRelease,
  AvoidsAction, IsFreeOf, PaysCosts, market_window-passed, session_room-passed, defined_risk-passed,
  flatten_deadline-passed, position_size-passed, portfolio_heat-passed, greeks-passed,
  concentration-passed, correlation-passed, liquidity-passed, time_to_expiry-passed,
  daily_loss-passed, drawdown-passed, rate_limits-passed, macro_blackout-passed,
  corporate_action-passed, cost_to_trade-passed, leg_conflict-passed,
}

-- Everything that a proposal has to satisfy.
pub record Admissible (ctx : GateContext) (cfg : Config) : Type 0 where
  pub not_killed : ctx.kill_switch ≡ false
  pub not_halted : ctx.halted ≡ false
  pub in_window : InWindow ctx cfg
  pub has_room : HasRoom ctx cfg
  pub before_deadline : BeforeDeadline ctx.now cfg.manage.flatten_all_at
  pub defined_risk : assert_defined_risk ctx.structure ≡ ok tt
  pub sized : IsSized ctx cfg
  pub heat_capped :
      current_heat ctx.portfolio +ℤ total_max_loss ctx
      ≤ℤ percent_of cfg.risk.portfolio_heat_pct ctx.equity
  pub balanced :
      IsBalanced (percent_of cfg.risk.delta_band_pct_of_equity ctx.equity) ctx.post_trade_greeks
  pub spread_out : IsSpread ctx cfg ctx.portfolio
  pub uncorrelated : IsUncorrelated ctx cfg ctx.portfolio ctx.correlations
  pub liquid :
      (ctx.spread_pct_of_mid ≤ℤ cfg.gate.max_spread_pct_of_mid)
      × (cfg.gate.min_open_interest ≤ ctx.open_interest)
  pub far_from_expiry : whole cfg.manage.min_hours_to_expiry ≤ℤ ctx.hours_to_expiry
  pub day_loss_bounded : neg cfg.risk.daily_loss_halt_pct <ℤ ctx.daily_pnl_pct
  pub drawdown_bounded : neg cfg.risk.max_drawdown_halt_pct <ℤ ctx.drawdown_pct
  pub rate_limited :
      (ctx.orders_last_minute < cfg.gate.max_orders_per_minute)
      × (ctx.new_positions_today < cfg.gate.max_new_positions_per_day)
  pub avoids_release : AvoidsRelease ctx ctx.macro_window
  pub avoids_action : AvoidsAction ctx.corporate_blackout
  pub not_duplicate : ctx.duplicate_open ≡ false
  pub free_legs : IsFreeOf ctx.held_legs ctx.structure.legs
  pub pays_costs : PaysCosts ctx cfg

-- Every check of the list passed.
abbrev AllPassed : List CheckResult → Type 0
AllPassed = All (λ r. r.passed ≡ true)

all_passed : (rs : List CheckResult) → all (λ r. r.passed) rs ≡ true → AllPassed rs
all_passed [] h = tt
all_passed (r ∷ rs) h = (ground arith, all_passed rs (ground arith))

AllPassed-back : (rs : List CheckResult) → AllPassed rs → all (λ r. r.passed) rs ≡ true
AllPassed-back [] h = refl
AllPassed-back (r ∷ rs) h = ground (arith, AllPassed-back rs h.1)

-- A switch that is off lets its check pass, and the other way round.
kill_switch-passed :
    (ctx : GateContext) (cfg : Config)
    → ((check_kill_switch ctx cfg).passed ≡ true) ↔ (ctx.kill_switch ≡ false)
unfolding check_kill_switch
kill_switch-passed ctx cfg = (λ h. ground arith, λ h. ground arith)

halted-passed :
    (ctx : GateContext) (cfg : Config)
    → ((check_halted ctx cfg).passed ≡ true) ↔ (ctx.halted ≡ false)
unfolding check_halted
halted-passed ctx cfg = (λ h. ground arith, λ h. ground arith)

duplicate-passed :
    (ctx : GateContext) (cfg : Config)
    → ((check_duplicate ctx cfg).passed ≡ true) ↔ (ctx.duplicate_open ≡ false)
unfolding check_duplicate
duplicate-passed ctx cfg = (λ h. ground arith, λ h. ground arith)

admit : (ctx : GateContext) (cfg : Config) → AllPassed (run_checks ctx cfg) → Admissible ctx cfg
unfolding run_checks
admit ctx cfg
      (
        kill,
        (
          halt,
          (
            window,
            (
              room,
              (
                deadline,
                (
                  risk,
                  (
                    size,
                    (
                      heat,
                      (
                        greeks,
                        (
                          conc,
                          (
                            corr,
                            (
                              liq,
                              (
                                expiry,
                                (daily, (dd, (rate, (macro, (corp, (dup, (legs, (cost, _)))))))),
                              ),
                            ),
                          ),
                        ),
                      ),
                    ),
                  ),
                ),
              ),
            ),
          ),
        ),
      ) =
    record {
      not_killed = (kill_switch-passed ctx cfg).0 kill;
      not_halted = (halted-passed ctx cfg).0 halt;
      in_window = (market_window-passed ctx cfg).0 window;
      has_room = (session_room-passed ctx cfg).0 room;
      before_deadline = (flatten_deadline-passed ctx cfg).0 deadline;
      defined_risk = (defined_risk-passed ctx cfg).0 risk;
      sized = (position_size-passed ctx cfg).0 size;
      heat_capped = (portfolio_heat-passed ctx cfg).0 heat;
      balanced = (greeks-passed ctx cfg).0 greeks;
      spread_out = (concentration-passed ctx cfg).0 conc;
      uncorrelated = (correlation-passed ctx cfg).0 corr;
      liquid = (liquidity-passed ctx cfg).0 liq;
      far_from_expiry = (time_to_expiry-passed ctx cfg).0 expiry;
      day_loss_bounded = (daily_loss-passed ctx cfg).0 daily;
      drawdown_bounded = (drawdown-passed ctx cfg).0 dd;
      rate_limited = (rate_limits-passed ctx cfg).0 rate;
      avoids_release = (macro_blackout-passed ctx cfg).0 macro;
      avoids_action = (corporate_action-passed ctx cfg).0 corp;
      not_duplicate = (duplicate-passed ctx cfg).0 dup;
      free_legs = (leg_conflict-passed ctx cfg).0 legs;
      pays_costs = (cost_to_trade-passed ctx cfg).0 cost;
    }

readmit : (ctx : GateContext) (cfg : Config) → Admissible ctx cfg → AllPassed (run_checks ctx cfg)
unfolding run_checks
readmit ctx cfg a = (
  (kill_switch-passed ctx cfg).1 a.not_killed,
  (
    (halted-passed ctx cfg).1 a.not_halted,
    (
      (market_window-passed ctx cfg).1 a.in_window,
      (
        (session_room-passed ctx cfg).1 a.has_room,
        (
          (flatten_deadline-passed ctx cfg).1 a.before_deadline,
          (
            (defined_risk-passed ctx cfg).1 a.defined_risk,
            (
              (position_size-passed ctx cfg).1 a.sized,
              (
                (portfolio_heat-passed ctx cfg).1 a.heat_capped,
                (
                  (greeks-passed ctx cfg).1 a.balanced,
                  (
                    (concentration-passed ctx cfg).1 a.spread_out,
                    (
                      (correlation-passed ctx cfg).1 a.uncorrelated,
                      (
                        (liquidity-passed ctx cfg).1 a.liquid,
                        (
                          (time_to_expiry-passed ctx cfg).1 a.far_from_expiry,
                          (
                            (daily_loss-passed ctx cfg).1 a.day_loss_bounded,
                            (
                              (drawdown-passed ctx cfg).1 a.drawdown_bounded,
                              (
                                (rate_limits-passed ctx cfg).1 a.rate_limited,
                                (
                                  (macro_blackout-passed ctx cfg).1 a.avoids_release,
                                  (
                                    (corporate_action-passed ctx cfg).1 a.avoids_action,
                                    (
                                      (duplicate-passed ctx cfg).1 a.not_duplicate,
                                      (
                                        (leg_conflict-passed ctx cfg).1 a.free_legs,
                                        ((cost_to_trade-passed ctx cfg).1 a.pays_costs, tt),
                                      ),
                                    ),
                                  ),
                                ),
                              ),
                            ),
                          ),
                        ),
                      ),
                    ),
                  ),
                ),
              ),
            ),
          ),
        ),
      ),
    ),
  ),
)

-- `evaluate` approves a proposal exactly when it is admissible, one condition for each check: no
-- kill switch and no halt; the session open, away from both its ends, and with room for an
-- intraday thesis; before the flatten deadline; a defined risk; a size of one at least that keeps
-- to the caps of a position, of a name and of the book's heat; the delta in its band; few
-- correlated positions; a tight market with open interest; far from expiry; the day's loss, the
-- drawdown and the rates within their limits; no credit into a release and no blocking corporate
-- action; no duplicate and no leg held already; and a target that pays its costs where it can be
-- priced.
pub approved-Admissible :
    (ctx : GateContext) (cfg : Config) → ((evaluate ctx cfg).approved ≡ true) ↔ Admissible ctx cfg
unfolding evaluate
approved-Admissible ctx cfg = (
  λ h. admit ctx cfg (all_passed (run_checks ctx cfg) h),
  λ a. AllPassed-back (run_checks ctx cfg) (readmit ctx cfg a),
)
