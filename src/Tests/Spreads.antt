-- ===== src/Tests/Spreads.antt =====
-- Runs of the structures of glassbox/structures.py.
use glassbox_ai_quant.Prelude.{ℕ, ◌+◌, ◌≤◌, ◌<◌, ◌≡◌, refl, List, [], ◌∷◌, arith}
use glassbox_ai_quant.Prelude.Int.{pos, negsuc, ◌-ℤ◌, ◌*ℤ◌}
use glassbox_ai_quant.Prelude.Decimal.{Decimal}
use glassbox_ai_quant.Structures.{
  call, put, long, short, bull_put_spread, long_strangle, Leg, Structure, ok, quantity,
  assert_defined_risk, max_loss_per_spread,
}
use glassbox_ai_quant.Structures.Payoff.{value_at, received, owed}
use glassbox_ai_quant.Structures.Bounded.{loss_bound, assert_defined_risk_bounded}
use glassbox_ai_quant.Structures.WorstCase.{one, vertical, IsWorstCase, credit_spread-IsWorstCase}
use glassbox_ai_quant.Structures.Condor.{condor, condor-IsWorstCase}

-- A put spread at 95 and 90 for a credit of 1.20, a strangle and a condor.
abbrev put_spread : Structure
put_spread = vertical bull_put_spread 7 put 30 (1, 95000000) (2, 90000000)

abbrev credit : Decimal
credit = negsuc 1199999

abbrev strangle : Structure
strangle = record {
  kind = long_strangle;
  underlying = 7;
  legs = one 3 call 110000000 30 long ∷ one 4 put 90000000 30 long ∷ [];
}

abbrev debit : Decimal
debit = pos 2500000

abbrev four_legs : Structure
four_legs = condor 7 30 (1, 95000000) (2, 90000000) (3, 105000000) (4, 110000000)

put_spread-asserted : assert_defined_risk put_spread ≡ ok tt
unfolding assert_defined_risk quantity
put_spread-asserted = refl

put_spread_loss : max_loss_per_spread put_spread credit ≡ ok (pos 380000000)
unfolding max_loss_per_spread quantity ◌-ℤ◌ ◌*ℤ◌
put_spread_loss = refl

strangle_loss : max_loss_per_spread strangle debit ≡ ok (pos 250000000)
unfolding max_loss_per_spread quantity ◌*ℤ◌
strangle_loss = refl

condor_runs : max_loss_per_spread four_legs credit ≡ ok (pos 380000000)
unfolding max_loss_per_spread quantity ◌-ℤ◌ ◌*ℤ◌
condor_runs = refl

assert_defined_risk_bounded_example :
    owed 80000000 put_spread.legs ≤ received 80000000 put_spread.legs + loss_bound put_spread.legs
assert_defined_risk_bounded_example =
    assert_defined_risk_bounded put_spread 80000000 put_spread-asserted

-- A naked call.
abbrev naked : List Leg
naked = one 5 call 100000000 30 short ∷ []

naked_short : quantity call long naked < quantity call short naked
unfolding quantity
naked_short = omega arith

credit_spread-IsWorstCase_example : IsWorstCase put_spread credit (pos 380000000)
credit_spread-IsWorstCase_example =
    credit_spread-IsWorstCase bull_put_spread 7 30 put (1, 95000000) (2, 90000000) credit refl
      (omega arith) (omega arith) put_spread_loss

condor-IsWorstCase_example : IsWorstCase four_legs credit (pos 380000000)
condor-IsWorstCase_example =
    condor-IsWorstCase 7 30 (1, 95000000) (2, 90000000) (3, 105000000) (4, 110000000) credit
      (omega arith) (omega arith) (omega arith) (omega arith) condor_runs

strangle_covers : (s : ℕ) → owed s strangle.legs ≤ received s strangle.legs
unfolding owed received value_at
strangle_covers s = omega arith

strangle_flat : received 100000000 strangle.legs ≡ owed 100000000 strangle.legs
unfolding owed received value_at
strangle_flat = refl
