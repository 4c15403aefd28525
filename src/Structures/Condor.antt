-- ===== src/Structures/Condor.antt =====
-- `max_loss_per_spread` of glassbox/structures.py for the other shapes of glassbox/chain.py: the debit
-- spread, the strangle and the iron condor.
use glassbox_ai_quant.Prelude.{
  leb, if◌then◌else◌, ℕ, ◌+◌, ◌-◌, ◌≤◌, ◌<◌, max, ◌≡◌, inl, inr, false, [], ◌∷◌, arith,
}
use glassbox_ai_quant.Prelude.Int.{
  ℤ, pos, ◌-ℤ◌, ◌*ℤ◌, neg, abs, ◌≤ℤ◌, abs_parts, int_laws, scaled_parts, neg_part-eq-zero,
}
use glassbox_ai_quant.Prelude.Decimal.{Decimal}
use glassbox_ai_quant.Structures.{
  call, put, long, short, iron_condor, Structure, is_credit, ok, Result-cases, quantity,
  assert_defined_risk, max_loss_per_spread,
}
use glassbox_ai_quant.Structures.Payoff.{value_at, received, owed, profit_at}
use glassbox_ai_quant.Structures.WorstCase.{one, wing_loss, wing_bound, wing_attained, IsWorstCase}

-- The loss of a debit structure is the price that was paid for it.
debit_loss :
    (st : Structure) (net m : Decimal)
    → is_credit st ≡ false
    → max_loss_per_spread st net ≡ ok m
    → m ≡ pos 100 *ℤ abs net
unfolding max_loss_per_spread
debit_loss st net m d h = elim (Result-cases (assert_defined_risk st)) [
  | inl e ↦ ground arith
  | inr e ↦ ground arith
]

-- For a debit structure at a price that is not negative, whose long legs are worth its short legs
-- at least at every spot price and just as much at one, and for which `max_loss_per_spread`
-- reports a loss: no spot price at expiry loses more, and one loses just that.
pub debit-IsWorstCase :
    (st : Structure) (net m : Decimal) (low : ℕ)
    → is_credit st ≡ false
    → pos 0 ≤ℤ net
    → max_loss_per_spread st net ≡ ok m
    → ((s : ℕ) → owed s st.legs ≤ received s st.legs)
    → received low st.legs ≡ owed low st.legs
    → IsWorstCase st net m
unfolding profit_at
debit-IsWorstCase st net m low d n h covers flat =
    rw (debit_loss st net m d h) (λ s. bound s (covers s), (low, attained))
  where
    bound :
        (s : ℕ)
        → owed s st.legs ≤ received s st.legs
        → neg (pos 100 *ℤ abs net)
          ≤ℤ pos 100 *ℤ (pos (received s st.legs) -ℤ pos (owed s st.legs) -ℤ net)
    bound s c = omega (
      int_laws,
      abs_parts net,
      neg_part-eq-zero net n,
      scaled_parts 100 (abs net),
      scaled_parts 100 (pos (received s st.legs) -ℤ pos (owed s st.legs) -ℤ net),
    )

    attained :
        pos 100 *ℤ (pos (received low st.legs) -ℤ pos (owed low st.legs) -ℤ net)
        ≡ neg (pos 100 *ℤ abs net)
    attained = omega (
      int_laws,
      abs_parts net,
      neg_part-eq-zero net n,
      scaled_parts 100 (abs net),
      scaled_parts 100 (pos (received low st.legs) -ℤ pos (owed low st.legs) -ℤ net),
    )

-- The four legs of an iron condor, in the order of the code: short put, long put, short call, long call.
abbrev pub condor : ℕ → ℕ → ℕ × ℕ → ℕ × ℕ → ℕ × ℕ → ℕ × ℕ → Structure
condor name e (ps, a) (pl, b) (cs, c) (cl, d) = record {
  kind = iron_condor;
  underlying = name;
  legs =
      one ps put a e short
      ∷ one pl put b e long
      ∷ one cs call c e short
      ∷ one cl call d e long
      ∷ [];
}

module _ (name e : ℕ) (put_s put_l call_s call_l : ℕ × ℕ) (net : Decimal) where
  abbrev pub this : Structure
  this = condor name e put_s put_l call_s call_l

  -- The wider of the two wings.
  abbrev pub wider : ℕ
  wider = max (call_l.1 - call_s.1) (put_s.1 - put_l.1)

  condor_loss :
      {m : Decimal}
      → put_l.1 < put_s.1
      → call_s.1 < call_l.1
      → max_loss_per_spread this net ≡ ok m
      → m ≡ wing_loss wider net
  unfolding max_loss_per_spread quantity
  condor_loss p c h = ground arith

  condor_worth :
      (s : ℕ)
      → (received s this.legs ≡ (s - call_l.1) + (put_l.1 - s))
        × (owed s this.legs ≡ (s - call_s.1) + (put_s.1 - s))
  unfolding received owed value_at
  condor_worth s = (omega arith, omega arith)

-- Where the wider wing is lost whole.
abbrev condor_spot : ℕ → ℕ → ℕ → ℕ
condor_spot call_width put_width top = if leb call_width put_width then 0 else top

-- For an iron condor whose wings have a width and do not cross, sold for a credit or for nothing,
-- for which `max_loss_per_spread` reports a loss: no spot price at expiry loses more, and one
-- loses just that.
pub condor-IsWorstCase :
    (name e : ℕ) (put_s put_l call_s call_l : ℕ × ℕ) (net : Decimal) {m : ℤ}
    → put_l.1 < put_s.1
    → put_s.1 ≤ call_s.1
    → call_s.1 < call_l.1
    → net ≤ℤ pos 0
    → max_loss_per_spread (condor name e put_s put_l call_s call_l) net ≡ ok m
    → IsWorstCase (condor name e put_s put_l call_s call_l) net m
unfolding profit_at
condor-IsWorstCase name e a b c d net p mid q n h = rw (condor_loss name e a b c d net p q h) (
  λ s.
      rw ((condor_worth name e a b c d net s).0, (condor_worth name e a b c d net s).1)
        (wing_bound w ((s - d.1) + (b.1 - s)) ((s - c.1) + (a.1 - s)) net n (omega arith)),
  (
    low,
    rw ((condor_worth name e a b c d net low).0, (condor_worth name e a b c d net low).1)
        (wing_attained w ((low - d.1) + (b.1 - low)) ((low - c.1) + (a.1 - low)) net n
          (ground arith)),
  ),
)
  where
    w : ℕ
    w = wider name e a b c d net

    low : ℕ
    low = condor_spot (d.1 - c.1) (a.1 - b.1) d.1
