-- ===== src/Gate/Context.antt =====
-- The data of glassbox/gate.py. The text of a check's detail is one constructor for each message.
use glassbox_ai_quant.Prelude.{keep_if, Dict, ℕ, Bool, not, Option, List}
use glassbox_ai_quant.Prelude.Int.{ℤ, ◌*ℤ◌}
use glassbox_ai_quant.Prelude.Decimal.{Decimal}
use glassbox_ai_quant.Clock.{Instant}
use glassbox_ai_quant.Structures.{LegSide, Structure, StructureError}
use glassbox_ai_quant.Portfolio.{Greeks, PortfolioState, Correlations}
use glassbox_ai_quant.Macro.{MacroWindow}
use glassbox_ai_quant.Corporate.{BlackoutResult}

pub data CheckName : Type 0 where
  kill_switch_check system_halted market_window session_room flatten_deadline : CheckName
  defined_risk position_size portfolio_heat greeks_bands concentration : CheckName
  correlation liquidity time_to_expiry daily_loss max_drawdown rate_limit : CheckName
  macro_blackout corporate_action duplicate leg_conflict cost_to_trade : CheckName

pub data Detail : Type 0 where
  clear : Detail
  engaged is_halted market_closed opening_auction closing_minutes : Detail
  no_clock no_deadline unparseable_deadline deadline_passed : Detail
  no_horizon spans_sessions no_session_room : Detail
  undefined_risk : StructureError → Detail
  no_quantity over_position_cap over_heat_cap no_delta outside_band : Detail
  no_positions too_many_in_name over_name_cap no_correlations too_correlated : Detail
  spread_too_wide open_interest_too_low expiry_too_near over_daily_loss over_drawdown : Detail
  too_many_orders too_many_positions : Detail
  not_checked inactive short_into_release long_permitted blocked_action : Detail
  already_open no_legs_held held_opposite held_same not_priceable target_below_cost : Detail

pub record CheckResult : Type 0 where
  pub name : CheckName
  pub passed : Bool
  pub detail : Detail

-- Counts that come from the clock are integers: before the open they may be negative.
pub record GateContext : Type 0 where
  pub structure : Structure
  pub qty : ℤ
  pub max_loss_per_spread : Decimal
  pub meta_label_p : Decimal
  pub equity : Decimal
  pub daily_pnl_pct : Decimal
  pub drawdown_pct : Decimal
  pub market_open : Bool
  pub minutes_since_open : ℤ
  pub minutes_to_close : ℤ
  pub hours_to_expiry : Decimal
  pub horizon_hours : Decimal
  pub halted : Bool
  pub kill_switch : Bool
  pub portfolio : Option PortfolioState
  pub post_trade_greeks : Option Greeks
  pub correlations : Correlations
  pub spread_pct_of_mid : Decimal
  pub open_interest : ℕ
  pub entry_price : Decimal
  pub round_trip_cost : Decimal
  pub orders_last_minute : ℕ
  pub new_positions_today : ℕ
  pub duplicate_open : Bool
  pub held_legs : Dict LegSide
  pub corporate_blackout : Option BlackoutResult
  pub macro_window : Option MacroWindow
  pub now : Option Instant

-- `GateContext.total_max_loss`
unfoldable pub total_max_loss : GateContext → Decimal
unfolding ◌*ℤ◌
total_max_loss ctx = ctx.qty *ℤ ctx.max_loss_per_spread

pub record GateDecision : Type 0 where
  pub approved : Bool
  pub checks : List CheckResult

-- `GateDecision.vetoes`
abbrev pub vetoes : GateDecision → List CheckResult
vetoes d = keep_if (λ c. not c.passed) d.checks
