-- ===== src/Gate/Admission.antt =====
-- What the gate of glassbox/gate.py admits: one condition for each check, stated as orders and
-- equations, and the proof that the checks test just these.
use glassbox_ai_quant.Prelude.{
  any, All, Dict, lookup, ◌≤◌, ◌<◌, ◌≡◌, refl, ◌≢◌, ◌↔◌, true, false, Option, none, some, List, [],
  ◌∷◌, arith,
}
use glassbox_ai_quant.Prelude.Int.{pos, ◌+ℤ◌, neg, abs, ◌≤ℤ◌, ◌<ℤ◌, eq_of_parts}
use glassbox_ai_quant.Prelude.Decimal.{Decimal, whole, percent_of}
use glassbox_ai_quant.Clock.{Instant, IsoText, empty, malformed, instant}
use glassbox_ai_quant.Config.{Config}
use glassbox_ai_quant.Structures.{LegSide, Leg, is_credit, ok, assert_defined_risk}
use glassbox_ai_quant.Portfolio.{Greeks, PortfolioState, Correlations, correlated_exposure}
use glassbox_ai_quant.Macro.{MacroWindow}
use glassbox_ai_quant.Corporate.{BlackoutResult}
use glassbox_ai_quant.Gate.Context.{GateContext, total_max_loss}
use glassbox_ai_quant.Gate.Checks.{
  check_market_window, with_clock, check_flatten_deadline, minutes_needed, as_decimal,
  check_session_room, check_defined_risk, check_position_size, current_heat, check_portfolio_heat,
  within_band, check_greeks, existing_in, concentrated, check_concentration, correlated,
  check_correlation, check_liquidity, check_time_to_expiry, check_daily_loss, check_drawdown,
  check_rate_limits, near_release, check_macro_blackout, before_action, check_corporate_action,
  is_shared, is_opposed, conflict, check_leg_conflict, target_to_cost, check_cost_to_trade,
}

-- The session is open, and neither end of it is near.
abbrev pub InWindow : GateContext → Config → Type 0
InWindow ctx cfg =
    (ctx.market_open ≡ true)
    × (pos cfg.gate.skip_first_minutes ≤ℤ ctx.minutes_since_open)
    × (pos cfg.gate.skip_last_minutes ≤ℤ ctx.minutes_to_close)

-- An intraday thesis with a horizon has the fraction of it that the configuration asks for.
abbrev pub HasRoom : GateContext → Config → Type 0
HasRoom ctx cfg =
    pos 0 <ℤ ctx.horizon_hours
    → ctx.horizon_hours ≤ℤ cfg.gate.intraday_horizon_hours
    → minutes_needed ctx cfg ≤ℤ as_decimal ctx.minutes_to_close

-- No configured deadline has passed.
abbrev pub BeforeDeadline : Option Instant → Option IsoText → Type 0
BeforeDeadline (some now) (some (instant deadline)) = now <ℤ deadline
BeforeDeadline _ _ = Unit

abbrev pub IsSized : GateContext → Config → Type 0
IsSized ctx cfg =
    (pos 1 ≤ℤ ctx.qty)
    × (total_max_loss ctx ≤ℤ percent_of cfg.risk.max_loss_per_position_pct ctx.equity)

abbrev pub IsBalanced : Decimal → Option Greeks → Type 0
IsBalanced band none = Unit
IsBalanced band (some g) = abs g.delta_dollars ≤ℤ band

abbrev pub IsSpread : GateContext → Config → Option PortfolioState → Type 0
IsSpread ctx cfg none = Unit
IsSpread ctx cfg (some p) =
    (existing_in ctx p < cfg.gate.max_positions_per_underlying)
    × (total_max_loss ctx ≤ℤ percent_of cfg.risk.max_loss_per_underlying_pct ctx.equity)

abbrev pub IsUncorrelated : GateContext → Config → Option PortfolioState → Correlations → Type 0
IsUncorrelated ctx cfg (some p) (c ∷ cs) =
    correlated_exposure p.positions_by_underlying ctx.structure.underlying (c ∷ cs)
      cfg.gate.correlation_threshold
    < cfg.gate.max_correlated_positions
IsUncorrelated ctx cfg _ _ = Unit

abbrev pub AvoidsRelease : GateContext → Option MacroWindow → Type 0
AvoidsRelease ctx none = Unit
AvoidsRelease ctx (some w) = w.active ≡ true → is_credit ctx.structure ≡ false

abbrev pub AvoidsAction : Option BlackoutResult → Type 0
AvoidsAction none = Unit
AvoidsAction (some b) = b.blocked ≡ false

-- No leg of the structure is held already, on either side.
abbrev pub IsFreeOf : Dict LegSide → List Leg → Type 0
IsFreeOf held legs = All (λ l. lookup l.symbol held ≡ none) legs

-- A priced trade pays its costs.
abbrev pub PaysCosts : GateContext → Config → Type 0
PaysCosts ctx cfg =
    pos 0 <ℤ ctx.round_trip_cost
    → ctx.entry_price ≢ pos 0
    → cfg.gate.min_target_to_cost_ratio ≤ℤ target_to_cost ctx cfg

module _ (ctx : GateContext) (cfg : Config) where
  pub market_window-passed : ((check_market_window ctx cfg).passed ≡ true) ↔ InWindow ctx cfg
  unfolding check_market_window
  market_window-passed = (λ h. ground arith, λ h. ground arith)

  pub session_room-passed : ((check_session_room ctx cfg).passed ≡ true) ↔ HasRoom ctx cfg
  unfolding check_session_room
  session_room-passed = (λ h p q. ground arith, λ h. ground arith)

  pub defined_risk-passed :
      (check_defined_risk ctx cfg).passed ≡ true ↔ (assert_defined_risk ctx.structure ≡ ok tt)
  unfolding check_defined_risk
  defined_risk-passed = (λ h. ground arith, λ h. ground arith)

  pub flatten_deadline-passed :
      ((check_flatten_deadline ctx cfg).passed ≡ true)
      ↔ BeforeDeadline ctx.now cfg.manage.flatten_all_at
  unfolding check_flatten_deadline
  flatten_deadline-passed = by_cases ctx.now cfg.manage.flatten_all_at
    where
      by_cases :
          (now : Option Instant) (raw : Option IsoText)
          → ((with_clock now raw).passed ≡ true) ↔ BeforeDeadline now raw
      by_cases none raw = (λ h. tt, λ h. refl)
      by_cases (some now) none = (λ h. tt, λ h. refl)
      by_cases (some now) (some empty) = (λ h. tt, λ h. refl)
      by_cases (some now) (some malformed) = (λ h. tt, λ h. refl)
      by_cases (some now) (some (instant d)) = (λ h. ground arith, λ h. ground arith)

  pub position_size-passed : ((check_position_size ctx cfg).passed ≡ true) ↔ IsSized ctx cfg
  unfolding check_position_size
  position_size-passed = (λ h. ground arith, λ h. ground arith)

  pub portfolio_heat-passed : ((check_portfolio_heat ctx cfg).passed ≡ true) ↔ (
      current_heat ctx.portfolio +ℤ total_max_loss ctx
      ≤ℤ percent_of cfg.risk.portfolio_heat_pct ctx.equity)
  unfolding check_portfolio_heat
  portfolio_heat-passed = (λ h. ground arith, λ h. ground arith)

  pub greeks-passed :
      ((check_greeks ctx cfg).passed ≡ true)
      ↔ IsBalanced (percent_of cfg.risk.delta_band_pct_of_equity ctx.equity) ctx.post_trade_greeks
  unfolding check_greeks
  greeks-passed = by_cases ctx.post_trade_greeks
    where
      by_cases :
          (g : Option Greeks)
          → ((within_band (percent_of cfg.risk.delta_band_pct_of_equity ctx.equity) g).passed
              ≡ true)
            ↔ IsBalanced (percent_of cfg.risk.delta_band_pct_of_equity ctx.equity) g
      by_cases none = (λ h. tt, λ h. refl)
      by_cases (some g) = (λ h. ground arith, λ h. ground arith)

  pub concentration-passed :
      ((check_concentration ctx cfg).passed ≡ true) ↔ IsSpread ctx cfg ctx.portfolio
  unfolding check_concentration
  concentration-passed = by_cases ctx.portfolio
    where
      by_cases :
          (p : Option PortfolioState)
          → ((concentrated ctx cfg p).passed ≡ true) ↔ IsSpread ctx cfg p
      by_cases none = (λ h. tt, λ h. refl)
      by_cases (some p) = (λ h. ground arith, λ h. ground arith)

  pub correlation-passed :
      ((check_correlation ctx cfg).passed ≡ true)
      ↔ IsUncorrelated ctx cfg ctx.portfolio ctx.correlations
  unfolding check_correlation
  correlation-passed = by_cases ctx.portfolio ctx.correlations
    where
      by_cases :
          (p : Option PortfolioState) (cs : Correlations)
          → ((correlated ctx cfg p cs).passed ≡ true) ↔ IsUncorrelated ctx cfg p cs
      by_cases none cs = (λ h. tt, λ h. refl)
      by_cases (some p) [] = (λ h. tt, λ h. refl)
      by_cases (some p) (c ∷ cs) = (λ h. ground arith, λ h. ground arith)

  pub liquidity-passed : ((check_liquidity ctx cfg).passed ≡ true) ↔ (
      (ctx.spread_pct_of_mid ≤ℤ cfg.gate.max_spread_pct_of_mid)
      × (cfg.gate.min_open_interest ≤ ctx.open_interest))
  unfolding check_liquidity
  liquidity-passed = (λ h. ground arith, λ h. ground arith)

  pub time_to_expiry-passed :
      ((check_time_to_expiry ctx cfg).passed ≡ true)
      ↔ (whole cfg.manage.min_hours_to_expiry ≤ℤ ctx.hours_to_expiry)
  unfolding check_time_to_expiry
  time_to_expiry-passed = (λ h. ground arith, λ h. ground arith)

  pub daily_loss-passed :
      ((check_daily_loss ctx cfg).passed ≡ true)
      ↔ (neg cfg.risk.daily_loss_halt_pct <ℤ ctx.daily_pnl_pct)
  unfolding check_daily_loss
  daily_loss-passed = (λ h. ground arith, λ h. ground arith)

  pub drawdown-passed :
      ((check_drawdown ctx cfg).passed ≡ true)
      ↔ (neg cfg.risk.max_drawdown_halt_pct <ℤ ctx.drawdown_pct)
  unfolding check_drawdown
  drawdown-passed = (λ h. ground arith, λ h. ground arith)

  pub rate_limits-passed : ((check_rate_limits ctx cfg).passed ≡ true) ↔ (
      (ctx.orders_last_minute < cfg.gate.max_orders_per_minute)
      × (ctx.new_positions_today < cfg.gate.max_new_positions_per_day))
  unfolding check_rate_limits
  rate_limits-passed = (λ h. ground arith, λ h. ground arith)

  pub macro_blackout-passed :
      ((check_macro_blackout ctx cfg).passed ≡ true) ↔ AvoidsRelease ctx ctx.macro_window
  unfolding check_macro_blackout
  macro_blackout-passed = by_cases ctx.macro_window
    where
      by_cases :
          (w : Option MacroWindow) → ((near_release ctx w).passed ≡ true) ↔ AvoidsRelease ctx w
      by_cases none = (λ h. tt, λ h. refl)
      by_cases (some w) = (λ h a. ground arith, λ h. ground arith)

  pub corporate_action-passed :
      ((check_corporate_action ctx cfg).passed ≡ true) ↔ AvoidsAction ctx.corporate_blackout
  unfolding check_corporate_action
  corporate_action-passed = by_cases ctx.corporate_blackout
    where
      by_cases : (b : Option BlackoutResult) → ((before_action b).passed ≡ true) ↔ AvoidsAction b
      by_cases none = (λ h. tt, λ h. refl)
      by_cases (some b) = (λ h. ground arith, λ h. ground arith)

  pub cost_to_trade-passed : ((check_cost_to_trade ctx cfg).passed ≡ true) ↔ PaysCosts ctx cfg
  unfolding check_cost_to_trade
  cost_to_trade-passed =
      (λ h p q. ground (arith, eq_of_parts ctx.entry_price (pos 0)), λ h. ground arith)

-- Of the legs that are held, none is opposed and none is shared exactly when none is held.
no_conflict :
    (held : Dict LegSide) (legs : List Leg)
    → ((any (is_opposed held) legs ≡ false) × (any (is_shared held) legs ≡ false))
      ↔ IsFreeOf held legs
no_conflict held [] = (λ h. tt, λ h. (refl, refl))
no_conflict held (l ∷ legs) = (
  λ h. (ground arith, (no_conflict held legs).0 (ground arith)),
  λ h. ground (arith, (no_conflict held legs).1 h.1),
)

-- With nothing held there is no leg that is.
IsFreeOf-nil : (legs : List Leg) → IsFreeOf [] legs
IsFreeOf-nil [] = tt
IsFreeOf-nil (l ∷ legs) = (refl, IsFreeOf-nil legs)

pub leg_conflict-passed :
    (ctx : GateContext) (cfg : Config)
    → ((check_leg_conflict ctx cfg).passed ≡ true) ↔ IsFreeOf ctx.held_legs ctx.structure.legs
unfolding check_leg_conflict
leg_conflict-passed ctx cfg = by_cases ctx.held_legs ctx.structure.legs
  where
    by_cases :
        (held : Dict LegSide) (legs : List Leg)
        → ((conflict held legs).passed ≡ true) ↔ IsFreeOf held legs
    by_cases [] legs = (λ h. IsFreeOf-nil legs, λ h. refl)
    by_cases (e ∷ held) legs = (
      λ h. (no_conflict (e ∷ held) legs).0 (ground arith),
      λ h. ground (arith, (no_conflict (e ∷ held) legs).1 h),
    )
