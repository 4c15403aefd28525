-- ===== src/Config.antt =====
-- glassbox/config.py: the sections of the configuration that the modelled code reads. A float is a
-- decimal, a count is a natural number. Fields that only unmodelled code reads are left out.
use glassbox_ai_quant.Prelude.{ℕ, Bool, true, Option, none}
use glassbox_ai_quant.Prelude.Int.{pos}
use glassbox_ai_quant.Prelude.Decimal.{Decimal, whole}
use glassbox_ai_quant.Clock.{IsoText}

pub record RiskCfg : Type 0 where
  pub r_per_trade_pct : Decimal
  pub max_loss_per_position_pct : Decimal
  pub max_loss_per_underlying_pct : Decimal
  pub portfolio_heat_pct : Decimal
  pub delta_band_pct_of_equity : Decimal
  pub daily_loss_halt_pct : Decimal
  pub max_drawdown_halt_pct : Decimal
  pub loss_streak_half_size : ℕ
  pub min_meta_label_p : Decimal

pub record SizingCfg : Type 0 where
  pub meta_multiplier_floor : Decimal
  pub meta_multiplier_ceiling : Decimal
  pub meta_multiplier_ceiling_p : Decimal
  pub target_daily_vol : Decimal
  pub abstain_multiplier : Decimal
  pub heat_taper_start : Decimal
  pub heat_taper_floor : Decimal
  pub drawdown_taper_start : Decimal
  pub drawdown_taper_floor : Decimal

pub record GateCfg : Type 0 where
  pub max_orders_per_minute : ℕ
  pub max_new_positions_per_day : ℕ
  pub skip_first_minutes : ℕ
  pub skip_last_minutes : ℕ
  pub intraday_horizon_hours : Decimal
  pub min_session_fraction : Decimal
  pub max_spread_pct_of_mid : Decimal
  pub min_open_interest : ℕ
  pub max_positions_per_underlying : ℕ
  pub max_correlated_positions : ℕ
  pub correlation_threshold : Decimal
  pub min_target_to_cost_ratio : Decimal

pub record ManageCfg : Type 0 where
  pub credit_profit_take_pct : Decimal
  pub stop_multiple_of_credit : Decimal
  pub debit_profit_take_pct : Decimal
  pub debit_stop_pct : Decimal
  pub breakeven_trigger_pct : Decimal
  pub trail_arm_pct : Decimal
  pub trail_keep_pct : Decimal
  pub min_hours_to_expiry : ℕ
  pub exit_on_thesis_complete : Bool
  pub thesis_complete_fraction : Decimal
  pub bell_no_weekend_carry : Bool
  pub bell_near_stop_fraction : Decimal
  pub bell_max_unprotected_pct_equity : Decimal
  pub flatten_all_at : Option IsoText

pub record SignalCfg : Type 0 where
  pub novelty_window_hours : ℕ
  pub min_confidence : Decimal
  pub novelty_similarity_threshold : Decimal
  pub min_headline_chars : ℕ
  pub max_news_age_hours : Decimal
  pub edge_ratio_debit : Decimal
  pub edge_ratio_credit : Decimal
  pub max_plausible_ratio : Decimal
  pub consume_realized_move : Bool
  pub vrp_max_for_debit : Decimal
  pub vrp_min_for_credit : Decimal
  pub wing_width_pct : Decimal
  pub min_move_pct_for_strikes : Decimal
  pub strike_liquidity_tolerance_widths : Decimal

pub record ExecutionCfg : Type 0 where
  pub entry_fill_timeout_minutes : Decimal
  pub entry_timeout_max_minutes : Decimal
  pub entry_timeout_reference_spread_pct : Decimal
  pub entry_ladder_steps : ℕ
  pub entry_ladder_step_seconds : Decimal
  pub entry_ladder_tick : Decimal
  pub entry_ladder_spread_fraction : Decimal
  pub entry_ladder_max_concession_pct : Decimal
  pub close_retry_seconds : Decimal
  pub close_max_attempts : ℕ
  pub close_escalation_pct : Decimal

pub record Config : Type 0 where
  pub risk : RiskCfg
  pub sizing : SizingCfg
  pub gate : GateCfg
  pub manage : ManageCfg
  pub signal : SignalCfg
  pub execution : ExecutionCfg

-- config/default.yaml, with a flatten deadline that its reader can parse.
abbrev pub default_risk : RiskCfg
default_risk = record {
  r_per_trade_pct = pos 1500000;
  max_loss_per_position_pct = pos 1500000;
  max_loss_per_underlying_pct = whole 3;
  portfolio_heat_pct = whole 6;
  delta_band_pct_of_equity = whole 40;
  daily_loss_halt_pct = whole 2;
  max_drawdown_halt_pct = whole 6;
  loss_streak_half_size = 4;
  min_meta_label_p = pos 550000;
}

abbrev pub default_sizing : SizingCfg
default_sizing = record {
  meta_multiplier_floor = pos 400000;
  meta_multiplier_ceiling = whole 1;
  meta_multiplier_ceiling_p = pos 850000;
  target_daily_vol = pos 20000;
  abstain_multiplier = whole 1;
  heat_taper_start = pos 600000;
  heat_taper_floor = pos 300000;
  drawdown_taper_start = pos 500000;
  drawdown_taper_floor = pos 300000;
}

abbrev pub default_gate : GateCfg
default_gate = record {
  max_orders_per_minute = 5;
  max_new_positions_per_day = 10;
  skip_first_minutes = 15;
  skip_last_minutes = 20;
  intraday_horizon_hours = whole 8;
  min_session_fraction = pos 500000;
  max_spread_pct_of_mid = whole 8;
  min_open_interest = 200;
  max_positions_per_underlying = 2;
  max_correlated_positions = 2;
  correlation_threshold = pos 700000;
  min_target_to_cost_ratio = pos 1500000;
}

abbrev pub default_manage : ManageCfg
default_manage = record {
  credit_profit_take_pct = whole 50;
  stop_multiple_of_credit = pos 1500000;
  debit_profit_take_pct = whole 100;
  debit_stop_pct = whole 40;
  breakeven_trigger_pct = whole 50;
  trail_arm_pct = whole 60;
  trail_keep_pct = whole 50;
  min_hours_to_expiry = 24;
  exit_on_thesis_complete = true;
  thesis_complete_fraction = whole 1;
  bell_no_weekend_carry = true;
  bell_near_stop_fraction = pos 500000;
  bell_max_unprotected_pct_equity = pos 250000;
  flatten_all_at = none;
}

abbrev pub default_signal : SignalCfg
default_signal = record {
  novelty_window_hours = 72;
  novelty_similarity_threshold = pos 600000;
  min_headline_chars = 15;
  max_news_age_hours = whole 2;
  min_confidence = pos 600000;
  edge_ratio_debit = pos 1300000;
  edge_ratio_credit = pos 700000;
  max_plausible_ratio = whole 5;
  consume_realized_move = true;
  vrp_max_for_debit = pos 1350000;
  vrp_min_for_credit = pos 720000;
  wing_width_pct = whole 1;
  min_move_pct_for_strikes = pos 500000;
  strike_liquidity_tolerance_widths = whole 2;
}

abbrev pub default_execution : ExecutionCfg
default_execution = record {
  entry_fill_timeout_minutes = whole 4;
  entry_timeout_max_minutes = whole 10;
  entry_timeout_reference_spread_pct = pos 2500000;
  entry_ladder_steps = 2;
  entry_ladder_step_seconds = whole 80;
  entry_ladder_tick = pos 10000;
  entry_ladder_spread_fraction = pos 250000;
  entry_ladder_max_concession_pct = whole 15;
  close_retry_seconds = whole 60;
  close_max_attempts = 4;
  close_escalation_pct = whole 12;
}

abbrev pub default_config : Config
default_config = record {
  risk = default_risk;
  sizing = default_sizing;
  gate = default_gate;
  manage = default_manage;
  signal = default_signal;
  execution = default_execution;
}
