-- ===== src/Tests/Signals.antt =====
-- Runs of glassbox/signal/edge.py.
use glassbox_ai_quant.Prelude.{◌≡◌, refl, ◌↔◌, false, some, [], ◌∷◌}
use glassbox_ai_quant.Prelude.Int.{pos, ◌-ℤ◌, ◌*ℤ◌, max_ℤ}
use glassbox_ai_quant.Prelude.Decimal.{whole, over}
use glassbox_ai_quant.Config.{default_config}
use glassbox_ai_quant.Structures.{call_debit_spread}
use glassbox_ai_quant.Manage.Views.{up}
use glassbox_ai_quant.Edge.{
  long_convexity, short_premium, EdgeResult, event_implied_move_pct, remaining_move, vrp_permits,
  EdgeInput, vrp_of, by_bars, judged, evaluate_edge,
}
use glassbox_ai_quant.Edge.Verdicts.{MayBuy, MaySell, buys_exact, sells_exact}

-- An expected move of 9% up against a straddle of 5 on a price of 100.
abbrev bullish : EdgeInput
bullish = record {
  expected_move_pct = whole 9;
  direction = up;
  confidence = pos 800000;
  straddle_mid = whole 5;
  spot = whole 100;
  realized_move_pct = some (whole 1);
  forecast_move_pct = some (whole 4);
  vrp_shift = pos 0;
  relax_band = false;
}

abbrev bought : EdgeResult
bought = record {
  verdict = long_convexity;
  expected_move_pct = whole 8;
  implied_move_pct = whole 5;
  ratio = pos 1600000;
  eligible_structures = call_debit_spread ∷ [];
  raw_expected_move_pct = whole 9;
  realized_move_pct = whole 1;
  vrp_ratio = some (pos 1250000);
}

evaluate_edge_buys : evaluate_edge bullish default_config ≡ some bought
unfolding evaluate_edge event_implied_move_pct judged by_bars vrp_permits remaining_move vrp_of over
    ◌-ℤ◌ ◌*ℤ◌ max_ℤ
evaluate_edge_buys = refl

buys_exact_example :
    (bought.verdict ≡ long_convexity) ↔ MayBuy bullish default_config bought.implied_move_pct
buys_exact_example = buys_exact bullish default_config bought evaluate_edge_buys

sells_exact_example :
    (bought.verdict ≡ short_premium) ↔ MaySell bullish default_config bought.implied_move_pct
sells_exact_example = sells_exact bullish default_config bought evaluate_edge_buys
