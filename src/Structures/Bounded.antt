-- ===== src/Structures/Bounded.antt =====
-- `assert_defined_risk` of glassbox/structures.py against the payoff at expiry.
use native.Mathlib.Nat.{mul-le-mul_left}
use glassbox_ai_quant.Prelude.{
  Bool-cases, ℕ, ◌+◌, ◌-◌, ◌*◌, ◌≤◌, ◌<◌, ◌≡◌, inl, inr, ◌&&◌, List, [], ◌∷◌, arith,
}
use glassbox_ai_quant.Structures.{
  call, put, LegSide, long, short, Leg, Structure, ok, same_right, same_side, quantity,
  assert_defined_risk,
}
use glassbox_ai_quant.Structures.Payoff.{value_at, strike_value, received, owed}

-- A multiple of a truncated difference, between two multiples.
scaled_sub : (q s k : ℕ) → (q * (s - k) ≤ s * q) × (s * q ≤ q * (s - k) + q * k)
scaled_sub q s k =
    (grind arith, omega (arith, mul-le-mul_left {m = s} {n = s - k + k} q (omega arith)))

scaled_sub-le_right : (q s k : ℕ) → q * (k - s) ≤ q * k
scaled_sub-le_right q s k = grind arith

module _ (d : LegSide) (s : ℕ) where
  -- A call is worth at most the spot price, and at least what is left of it after its strike.
  value_at-call-le : (ls : List Leg) → value_at call d s ls ≤ s * quantity call d ls
  unfolding value_at quantity
  value_at-call-le [] = omega arith
  value_at-call-le (l ∷ ls) = elim (Bool-cases (same_right l.right call && same_side l.side d)) [
    | inl e ↦ rw e (omega (arith, scaled_sub l.ratio_qty s l.strike, value_at-call-le ls))
    | inr e ↦ rw e (value_at-call-le ls)
  ]

  value_at-call-ge :
      (ls : List Leg) → s * quantity call d ls ≤ value_at call d s ls + strike_value call d ls
  unfolding value_at strike_value quantity
  value_at-call-ge [] = omega arith
  value_at-call-ge (l ∷ ls) = elim (Bool-cases (same_right l.right call && same_side l.side d)) [
    | inl e ↦ rw e (omega (arith, scaled_sub l.ratio_qty s l.strike, value_at-call-ge ls))
    | inr e ↦ rw e (value_at-call-ge ls)
  ]

  -- A put is worth at most its strike.
  value_at-put-le : (ls : List Leg) → value_at put d s ls ≤ strike_value put d ls
  unfolding value_at strike_value
  value_at-put-le [] = omega arith
  value_at-put-le (l ∷ ls) = elim (Bool-cases (same_right l.right put && same_side l.side d)) [
    | inl e ↦ rw e (omega (arith, scaled_sub-le_right l.ratio_qty s l.strike, value_at-put-le ls))
    | inr e ↦ rw e (value_at-put-le ls)
  ]

-- The most that a structure can cost at expiry, whatever the spot price.
pub loss_bound : List Leg → ℕ
unfolding strike_value
loss_bound ls = strike_value call long ls + strike_value put short ls

covered :
    (st : Structure)
    → assert_defined_risk st ≡ ok tt
    → quantity call short st.legs ≤ quantity call long st.legs
unfolding assert_defined_risk
covered st h = ground arith

-- What a structure that `assert_defined_risk` accepts owes at expiry exceeds what it receives by
-- at most `loss_bound`, a number that does not depend on the spot price.
pub assert_defined_risk_bounded :
    (st : Structure) (s : ℕ)
    → assert_defined_risk st ≡ ok tt
    → owed s st.legs ≤ received s st.legs + loss_bound st.legs
unfolding owed received loss_bound
assert_defined_risk_bounded st s h = grind (
  arith,
  covered st h,
  value_at-call-le short s st.legs,
  value_at-call-ge long s st.legs,
  value_at-put-le short s st.legs,
)

-- With fewer long than short calls the loss has no bound: for any amount, some spot price makes
-- the legs owe more than they receive and that amount.
pub uncovered_calls_unbounded :
    (ls : List Leg) (bound : ℕ)
    → quantity call long ls < quantity call short ls
    → (s : ℕ) × (received s ls + bound < owed s ls)
unfolding owed received
uncovered_calls_unbounded ls bound h = (
  s,
  grind (arith, value_at-call-le long s ls, value_at-call-ge short s ls, value_at-put-le long s ls),
)
  where
    s : ℕ
    s = bound + strike_value call short ls + strike_value put long ls + 1
