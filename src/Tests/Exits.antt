-- ===== src/Tests/Exits.antt =====
-- Runs of glassbox/manage.py.
use glassbox_ai_quant.Prelude.{◌≡◌, refl, ◌↔◌, none, arith}
use glassbox_ai_quant.Prelude.Int.{pos, negsuc, ◌-ℤ◌, ◌*ℤ◌, neg, abs, ◌<ℤ◌, min_ℤ}
use glassbox_ai_quant.Prelude.Decimal.{whole, percent_of}
use glassbox_ai_quant.Config.{default_config}
use glassbox_ai_quant.Structures.{bull_put_spread}
use glassbox_ai_quant.Manage.Views.{
  hold, close, up, PositionView, unrealized_pnl, move_since_entry_pct, thesis_move_achieved,
  max_profit, profit_target, stop_loss, stop_level,
}
use glassbox_ai_quant.Manage.Decide.{Tick, tests, struck, evaluate_position}
use glassbox_ai_quant.Manage.Order.{IsQuiet, hold_exact}

-- Two put spreads sold at 1.20 and worth 0.50 now.
abbrev winner : PositionView
winner = record {
  position_id = 1;
  kind = bull_put_spread;
  qty = 2;
  entry_price = negsuc 1199999;
  current_price = negsuc 499999;
  max_loss_per_spread = whole 380;
  opened_at = pos 0;
  horizon_hours = whole 24;
  hours_to_expiry = whole 200;
  peak_pnl = whole 140;
  thesis_direction = up;
  thesis_move_pct = whole 3;
  entry_spot = whole 100;
  current_spot = whole 101;
}

abbrev plain : Tick
plain = record { now = pos 0; deadline = none; macro_window = none; bell = none }

winner_closes : (evaluate_position winner default_config plain).action ≡ close
unfolding evaluate_position struck tests unrealized_pnl stop_level stop_loss profit_target
    max_profit thesis_move_achieved move_since_entry_pct percent_of min_ℤ abs neg ◌-ℤ◌ ◌*ℤ◌
winner_closes = refl

hold_exact_example :
    ((evaluate_position winner default_config plain).action ≡ hold)
    ↔ IsQuiet winner default_config plain
hold_exact_example = hold_exact winner default_config plain

target_pos : pos 0 <ℤ profit_target winner default_config
unfolding profit_target max_profit percent_of abs ◌*ℤ◌
target_pos = omega arith
