-- ===== src/Gate/Checks.antt =====
-- The individual checks of glassbox/gate.py.
use glassbox_ai_quant.Prelude.{
  ltb, leb, if◌then◌else◌, any, Dict, lookup, ℕ, Bool, true, false, not, ◌||◌, Option, none, some,
  List, [], ◌∷◌,
}
use glassbox_ai_quant.Prelude.Int.{ℤ, pos, ◌+ℤ◌, ◌*ℤ◌, neg, abs, ltb_ℤ, leb_ℤ, ◌==ℤ◌}
use glassbox_ai_quant.Prelude.Decimal.{Decimal, scale, whole, times, over, percent_of}
use glassbox_ai_quant.Clock.{Instant, IsoText, empty, malformed, instant}
use glassbox_ai_quant.Config.{Config}
use glassbox_ai_quant.Structures.{
  LegSide, Leg, is_credit, Result, ok, err, same_side, assert_defined_risk,
}
use glassbox_ai_quant.Portfolio.{Greeks, PortfolioState, get_or, Correlations, correlated_exposure}
use glassbox_ai_quant.Macro.{MacroWindow}
use glassbox_ai_quant.Corporate.{BlackoutResult}
use glassbox_ai_quant.Gate.Context.{
  CheckName, kill_switch_check, system_halted, market_window, session_room, flatten_deadline,
  defined_risk, position_size, portfolio_heat, greeks_bands, concentration, correlation, liquidity,
  time_to_expiry, daily_loss, max_drawdown, rate_limit, macro_blackout, corporate_action, duplicate,
  leg_conflict, cost_to_trade, Detail, clear, engaged, is_halted, market_closed, opening_auction,
  closing_minutes, no_clock, no_deadline, unparseable_deadline, deadline_passed, no_horizon,
  spans_sessions, no_session_room, undefined_risk, no_quantity, over_position_cap, over_heat_cap,
  no_delta, outside_band, no_positions, too_many_in_name, over_name_cap, no_correlations,
  too_correlated, spread_too_wide, open_interest_too_low, expiry_too_near, over_daily_loss,
  over_drawdown, too_many_orders, too_many_positions, not_checked, inactive, short_into_release,
  long_permitted, blocked_action, already_open, no_legs_held, held_opposite, held_same,
  not_priceable, target_below_cost, CheckResult, GateContext, total_max_loss,
}

abbrev pub Check : Type 0
Check = GateContext → Config → CheckResult

abbrev pub pass : CheckName → Detail → CheckResult
pass n d = record { name = n; passed = true; detail = d }

abbrev pub veto : CheckName → Detail → CheckResult
veto n d = record { name = n; passed = false; detail = d }

-- `if bad: return veto`, and a pass at the end.
abbrev pub veto_if : CheckName → Bool → Detail → CheckResult → CheckResult
veto_if n bad d rest = if bad then veto n d else rest

unfoldable pub check_kill_switch : Check
check_kill_switch ctx cfg =
    veto_if kill_switch_check ctx.kill_switch engaged (pass kill_switch_check clear)

unfoldable pub check_halted : Check
check_halted ctx cfg = veto_if system_halted ctx.halted is_halted (pass system_halted clear)

unfoldable pub check_market_window : Check
check_market_window ctx cfg = veto_if market_window (not ctx.market_open) market_closed (
    veto_if market_window (ltb_ℤ ctx.minutes_since_open (pos cfg.gate.skip_first_minutes))
      opening_auction
      (veto_if market_window (ltb_ℤ ctx.minutes_to_close (pos cfg.gate.skip_last_minutes))
        closing_minutes (pass market_window clear)))

-- The deadline, once the clock is there.
abbrev pub at_deadline : Instant → Option IsoText → CheckResult
at_deadline now none = pass flatten_deadline no_deadline
at_deadline now (some empty) = pass flatten_deadline no_deadline
at_deadline now (some malformed) = pass flatten_deadline unparseable_deadline
at_deadline now (some (instant deadline)) =
    veto_if flatten_deadline (leb_ℤ deadline now) deadline_passed (pass flatten_deadline clear)

abbrev pub with_clock : Option Instant → Option IsoText → CheckResult
with_clock none raw = pass flatten_deadline no_clock
with_clock (some now) raw = at_deadline now raw

unfoldable pub check_flatten_deadline : Check
check_flatten_deadline ctx cfg = with_clock ctx.now cfg.manage.flatten_all_at

-- `horizon_hours * 60 * min_session_fraction`, in minutes.
unfoldable pub minutes_needed : GateContext → Config → Decimal
minutes_needed ctx cfg = times (pos 60 *ℤ ctx.horizon_hours) cfg.gate.min_session_fraction

-- A whole number of minutes or hours as a decimal.
unfoldable pub as_decimal : ℤ → Decimal
as_decimal n = pos scale *ℤ n

unfoldable pub check_session_room : Check
check_session_room ctx cfg =
    if leb_ℤ ctx.horizon_hours (pos 0)
    then pass session_room no_horizon
    else if ltb_ℤ cfg.gate.intraday_horizon_hours ctx.horizon_hours
    then pass session_room spans_sessions
    else veto_if session_room (ltb_ℤ (as_decimal ctx.minutes_to_close) (minutes_needed ctx cfg))
        no_session_room (pass session_room clear)

abbrev pub risk_verdict : Result (Unit {0}) → CheckResult
risk_verdict (ok _) = pass defined_risk clear
risk_verdict (err e) = veto defined_risk (undefined_risk e)

unfoldable pub check_defined_risk : Check
check_defined_risk ctx cfg = risk_verdict (assert_defined_risk ctx.structure)

unfoldable pub check_position_size : Check
check_position_size ctx cfg = veto_if position_size (ltb_ℤ ctx.qty (pos 1)) no_quantity (
    veto_if position_size
      (ltb_ℤ (percent_of cfg.risk.max_loss_per_position_pct ctx.equity) (total_max_loss ctx))
      over_position_cap (pass position_size clear))

-- `ctx.portfolio.heat if ctx.portfolio else 0.0`
abbrev pub current_heat : Option PortfolioState → Decimal
current_heat none = pos 0
current_heat (some p) = p.heat

unfoldable pub check_portfolio_heat : Check
check_portfolio_heat ctx cfg =
    veto_if portfolio_heat
      (ltb_ℤ (percent_of cfg.risk.portfolio_heat_pct ctx.equity)
        (current_heat ctx.portfolio +ℤ total_max_loss ctx))
      over_heat_cap (pass portfolio_heat clear)

abbrev pub within_band : Decimal → Option Greeks → CheckResult
within_band band none = pass greeks_bands no_delta
within_band band (some g) =
    veto_if greeks_bands (ltb_ℤ band (abs g.delta_dollars)) outside_band (pass greeks_bands clear)

unfoldable pub check_greeks : Check
check_greeks ctx cfg =
    within_band (percent_of cfg.risk.delta_band_pct_of_equity ctx.equity) ctx.post_trade_greeks

-- `positions_by_underlying.get(underlying, 0)`
abbrev pub existing_in : GateContext → PortfolioState → ℕ
existing_in ctx p = get_or (lookup ctx.structure.underlying p.positions_by_underlying) 0

abbrev pub concentrated : GateContext → Config → Option PortfolioState → CheckResult
concentrated ctx cfg none = pass concentration no_positions
concentrated ctx cfg (some p) =
    veto_if concentration (leb cfg.gate.max_positions_per_underlying (existing_in ctx p))
      too_many_in_name
      (veto_if concentration
        (ltb_ℤ (percent_of cfg.risk.max_loss_per_underlying_pct ctx.equity) (total_max_loss ctx))
        over_name_cap (pass concentration clear))

unfoldable pub check_concentration : Check
check_concentration ctx cfg = concentrated ctx cfg ctx.portfolio

abbrev pub correlated : GateContext → Config → Option PortfolioState → Correlations → CheckResult
correlated ctx cfg none cs = pass correlation no_correlations
correlated ctx cfg (some p) [] = pass correlation no_correlations
correlated ctx cfg (some p) (c ∷ cs) =
    veto_if correlation
      (leb cfg.gate.max_correlated_positions (
        correlated_exposure p.positions_by_underlying ctx.structure.underlying (c ∷ cs)
          cfg.gate.correlation_threshold))
      too_correlated (pass correlation clear)

unfoldable pub check_correlation : Check
check_correlation ctx cfg = correlated ctx cfg ctx.portfolio ctx.correlations

unfoldable pub check_liquidity : Check
check_liquidity ctx cfg =
    veto_if liquidity (ltb_ℤ cfg.gate.max_spread_pct_of_mid ctx.spread_pct_of_mid) spread_too_wide (
      veto_if liquidity (ltb ctx.open_interest cfg.gate.min_open_interest) open_interest_too_low
        (pass liquidity clear))

unfoldable pub check_time_to_expiry : Check
check_time_to_expiry ctx cfg =
    veto_if time_to_expiry (ltb_ℤ ctx.hours_to_expiry (whole cfg.manage.min_hours_to_expiry))
      expiry_too_near (pass time_to_expiry clear)

unfoldable pub check_daily_loss : Check
check_daily_loss ctx cfg =
    veto_if daily_loss (leb_ℤ ctx.daily_pnl_pct (neg cfg.risk.daily_loss_halt_pct)) over_daily_loss
      (pass daily_loss clear)

unfoldable pub check_drawdown : Check
check_drawdown ctx cfg =
    veto_if max_drawdown (leb_ℤ ctx.drawdown_pct (neg cfg.risk.max_drawdown_halt_pct)) over_drawdown
      (pass max_drawdown clear)

unfoldable pub check_rate_limits : Check
check_rate_limits ctx cfg =
    veto_if rate_limit (leb cfg.gate.max_orders_per_minute ctx.orders_last_minute) too_many_orders (
      veto_if rate_limit (leb cfg.gate.max_new_positions_per_day ctx.new_positions_today)
        too_many_positions (pass rate_limit clear))

abbrev pub near_release : GateContext → Option MacroWindow → CheckResult
near_release ctx none = pass macro_blackout not_checked
near_release ctx (some w) =
    if not w.active
    then pass macro_blackout inactive
    else veto_if macro_blackout (is_credit ctx.structure) short_into_release
        (pass macro_blackout long_permitted)

unfoldable pub check_macro_blackout : Check
check_macro_blackout ctx cfg = near_release ctx ctx.macro_window

abbrev pub before_action : Option BlackoutResult → CheckResult
before_action none = pass corporate_action not_checked
before_action (some b) =
    veto_if corporate_action b.blocked blocked_action (pass corporate_action clear)

unfoldable pub check_corporate_action : Check
check_corporate_action ctx cfg = before_action ctx.corporate_blackout

unfoldable pub check_duplicate : Check
check_duplicate ctx cfg = veto_if duplicate ctx.duplicate_open already_open (pass duplicate clear)

-- `held == str(leg.side)`, of a leg that is held.
abbrev pub is_shared : Dict LegSide → Leg → Bool
is_shared held l = elim (lookup l.symbol held) [ none ↦ false | some d ↦ same_side d l.side ]

abbrev pub is_opposed : Dict LegSide → Leg → Bool
is_opposed held l = elim (lookup l.symbol held) [ none ↦ false | some d ↦ not (same_side d l.side) ]

abbrev pub conflict : Dict LegSide → List Leg → CheckResult
conflict [] legs = pass leg_conflict no_legs_held
conflict (h ∷ held) legs =
    veto_if leg_conflict (any (is_opposed (h ∷ held)) legs) held_opposite
      (veto_if leg_conflict (any (is_shared (h ∷ held)) legs) held_same (pass leg_conflict clear))

unfoldable pub check_leg_conflict : Check
check_leg_conflict ctx cfg = conflict ctx.held_legs ctx.structure.legs

abbrev pub take_pct : GateContext → Config → Decimal
take_pct ctx cfg =
    if ltb_ℤ ctx.entry_price (pos 0)
    then cfg.manage.credit_profit_take_pct
    else cfg.manage.debit_profit_take_pct

-- `abs(entry_price) * (take / 100) * 100`
unfoldable pub profit_target : GateContext → Config → Decimal
profit_target ctx cfg = pos 100 *ℤ percent_of (take_pct ctx cfg) (abs ctx.entry_price)

-- `target / cost`
unfoldable pub target_to_cost : GateContext → Config → Decimal
target_to_cost ctx cfg = over (profit_target ctx cfg) ctx.round_trip_cost

unfoldable pub check_cost_to_trade : Check
check_cost_to_trade ctx cfg =
    if leb_ℤ ctx.round_trip_cost (pos 0) || ctx.entry_price ==ℤ pos 0
    then pass cost_to_trade not_priceable
    else veto_if cost_to_trade (ltb_ℤ (target_to_cost ctx cfg) cfg.gate.min_target_to_cost_ratio)
        target_below_cost (pass cost_to_trade clear)
