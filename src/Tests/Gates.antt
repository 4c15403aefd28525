-- ===== src/Tests/Gates.antt =====
-- A proposal before the gate of glassbox/gate.py.
use glassbox_ai_quant.Prelude.{◌≡◌, ◌↔◌, true, false, none, []}
use glassbox_ai_quant.Prelude.Int.{pos, negsuc}
use glassbox_ai_quant.Prelude.Decimal.{whole}
use glassbox_ai_quant.Config.{default_config}
use glassbox_ai_quant.Structures.{put, bull_put_spread}
use glassbox_ai_quant.Structures.WorstCase.{vertical}
use glassbox_ai_quant.Gate.Context.{GateContext}
use glassbox_ai_quant.Gate.Verdict.{evaluate}
use glassbox_ai_quant.Gate.Approval.{Admissible, approved-Admissible}

abbrev pub proposal : GateContext
proposal = record {
  structure = vertical bull_put_spread 7 put 30 (1, 95000000) (2, 90000000);
  qty = pos 3;
  max_loss_per_spread = whole 380;
  meta_label_p = pos 700000;
  equity = whole 100000;
  daily_pnl_pct = pos 0;
  drawdown_pct = pos 0;
  market_open = true;
  minutes_since_open = pos 60;
  minutes_to_close = pos 300;
  hours_to_expiry = whole 200;
  horizon_hours = whole 24;
  halted = false;
  kill_switch = false;
  portfolio = none;
  post_trade_greeks = none;
  correlations = [];
  spread_pct_of_mid = whole 3;
  open_interest = 900;
  entry_price = negsuc 1199999;
  round_trip_cost = whole 10;
  orders_last_minute = 0;
  new_positions_today = 0;
  duplicate_open = false;
  held_legs = [];
  corporate_blackout = none;
  macro_window = none;
  now = none;
}

approved-Admissible_example :
    ((evaluate proposal default_config).approved ≡ true) ↔ Admissible proposal default_config
approved-Admissible_example = approved-Admissible proposal default_config
