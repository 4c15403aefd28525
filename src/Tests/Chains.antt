-- ===== src/Tests/Chains.antt =====
-- Runs of glassbox/chain.py.
use glassbox_ai_quant.Prelude.{All, ℕ, ◌+◌, ◌*◌, ◌≡◌, refl, some, List, [], ◌∷◌, arith}
use glassbox_ai_quant.Prelude.Int.{pos, ◌+ℤ◌, ◌-ℤ◌, ◌*ℤ◌, neg, abs, ◌≤ℤ◌, leb_ℤ, max_ℤ, floor_div}
use glassbox_ai_quant.Prelude.Decimal.{whole, times, over}
use glassbox_ai_quant.Prelude.Cents.{round_cents}
use glassbox_ai_quant.Config.{default_config}
use glassbox_ai_quant.Structures.{
  put, long, short, bull_put_spread, iron_condor, Structure, ok, quantity, assert_defined_risk,
}
use glassbox_ai_quant.Reconcile.{sorted_set}
use glassbox_ai_quant.Selection.Quotes.{
  no_strikes, chosen, ContractQuote, mid, spread_pct_of_mid, by_strike, side_of, distance,
  nearest_after, nearest, least_gap, steps_of, wing_width, liquid, pick,
}
use glassbox_ai_quant.Selection.Build.{
  leg_of, build, put_wing, call_wing, build_kind, view_of, build_structure, quote_of, worst_spread,
  least_interest, structure_liquidity, cost_of, structure_round_trip_cost,
}
use glassbox_ai_quant.Selection.Picks.{pick_stays_near}
use glassbox_ai_quant.Selection.Shapes.{IsShaped, built-IsShaped}

-- A put that expires on day 10: its symbol, its strike in dollars, its bid in cents, and how many are open.
abbrev put_quote : ℕ → ℕ → ℕ → ℕ → ContractQuote
put_quote symbol dollars cents interest = record {
  symbol = symbol;
  right = put;
  strike = dollars * 1000000;
  expiry = 10;
  bid = pos (cents * 10000);
  ask = pos ((cents + 2) * 10000);
  open_interest = interest;
}

abbrev p95 : ContractQuote
p95 = put_quote 1 95 60 4

abbrev p96 : ContractQuote
p96 = put_quote 2 96 80 900

abbrev p97 : ContractQuote
p97 = put_quote 3 97 110 4

abbrev p98 : ContractQuote
p98 = put_quote 4 98 140 900

-- Not in order, with the lowest strike last.
abbrev chain : List ContractQuote
chain = p98 ∷ p96 ∷ p97 ∷ p95 ∷ []

-- At 100 dollars with a move of 2 percent the put of 98 is sold. One width below it is 97, which
-- nobody trades, so that 96 is bought, one width away from there. The credit is 0.60.
abbrev sold : Structure
sold = record {
  kind = bull_put_spread;
  underlying = 7;
  legs = leg_of p98 short ∷ leg_of p96 long ∷ [];
}

spread_built :
    build_structure bull_put_spread chain (whole 100) (whole 2) 7 default_config
    ≡ chosen (sold, neg (pos 600000))
unfolding build_structure view_of build_kind put_wing build wing_width side_of by_strike liquid pick
    nearest nearest_after least_gap steps_of sorted_set mid spread_pct_of_mid assert_defined_risk
    quantity round_cents times over floor_div ◌-ℤ◌ ◌+ℤ◌ ◌*ℤ◌ neg abs max_ℤ
    glassbox_ai_quant.Selection.Quotes.◌>>=◌ glassbox_ai_quant.Selection.Quotes.◌>>◌
spread_built = refl

no_calls : build_structure iron_condor chain (whole 100) (whole 2) 7 default_config ≡ no_strikes
unfolding build_structure view_of build_kind put_wing call_wing build wing_width side_of by_strike
    liquid pick nearest nearest_after least_gap steps_of sorted_set mid spread_pct_of_mid
    assert_defined_risk quantity round_cents times over floor_div ◌-ℤ◌ ◌+ℤ◌ ◌*ℤ◌ neg abs max_ℤ
    glassbox_ai_quant.Selection.Quotes.◌>>=◌ glassbox_ai_quant.Selection.Quotes.◌>>◌
no_calls = refl

-- Selling 98 and buying 96 back and forth costs two cents on each leg.
cost_known : structure_round_trip_cost sold chain ≡ whole 4
unfolding structure_round_trip_cost cost_of quote_of ◌-ℤ◌ ◌+ℤ◌ ◌*ℤ◌ leb_ℤ
cost_known = refl

cost_unknown : structure_round_trip_cost sold (p98 ∷ []) ≡ pos 0
unfolding structure_round_trip_cost cost_of quote_of ◌-ℤ◌ ◌+ℤ◌ ◌*ℤ◌ leb_ℤ
cost_unknown = refl

thinnest_leg : structure_liquidity sold chain ≡ (some (over (pos 2000000) (pos 810000)), 900)
unfolding structure_liquidity worst_spread least_interest quote_of spread_pct_of_mid mid over
    floor_div ◌-ℤ◌ ◌+ℤ◌ ◌*ℤ◌ max_ℤ
thinnest_leg = refl

long_picked : pick (p96 ∷ []) (p95 ∷ p96 ∷ p97 ∷ []) (whole 97) (whole 1) ≡ chosen p96
unfolding pick nearest nearest_after abs ◌-ℤ◌ glassbox_ai_quant.Selection.Quotes.◌>>=◌
long_picked = refl

built-IsShaped_example :
    IsShaped chain bull_put_spread
      (view_of bull_put_spread chain (whole 100) (whole 2) 7 default_config)
      sold.legs
    × (assert_defined_risk sold ≡ ok tt)
built-IsShaped_example =
    built-IsShaped bull_put_spread chain (whole 100) (whole 2) 7 default_config sold
      (neg (pos 600000)) spread_built

pick_stays_near_example :
    (g : ContractQuote) × (nearest (p95 ∷ p96 ∷ p97 ∷ []) (whole 97) ≡ chosen g)
    × All (λ d. distance (whole 97) g ≤ℤ distance (whole 97) d) (p95 ∷ p96 ∷ p97 ∷ [])
    × (abs (pos p96.strike -ℤ pos g.strike) ≤ℤ whole 1)
pick_stays_near_example =
    pick_stays_near (p96 ∷ []) (p95 ∷ p96 ∷ p97 ∷ []) (whole 97) (whole 1) p96 (omega arith)
      long_picked
