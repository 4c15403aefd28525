-- ===== src/Structures/WorstCase.antt =====
-- `max_loss_per_spread` of glassbox/structures.py against the payoff at expiry, for the shapes that
-- glassbox/chain.py builds: one contract a leg, and one or two legs of each right.
use glassbox_ai_quant.Prelude.{ℕ, ◌+◌, ◌-◌, ◌≤◌, ◌<◌, ◌≡◌, sym, ◌∙◌, true, [], ◌∷◌, arith}
use glassbox_ai_quant.Prelude.Int.{
  ℤ, pos, ◌-ℤ◌, ◌*ℤ◌, neg, abs, ◌≤ℤ◌, abs_parts, int_laws, scaled_parts, pos_part-eq-zero,
}
use glassbox_ai_quant.Prelude.Decimal.{Decimal}
use glassbox_ai_quant.Structures.Payoff.{intrinsic, value_at, received, owed, profit_at}
use glassbox_ai_quant.Structures.{
  Right, call, put, LegSide, long, short, StructureKind, is_credit_kind, Leg, Structure, ok,
  quantity, max_loss_per_spread,
}

-- One contract of an option with the given symbol, right, strike, expiry and side.
abbrev pub one : ℕ → Right → ℕ → ℕ → LegSide → Leg
one sym r k e d = record {
  symbol = sym;
  right = r;
  strike = k;
  expiry = e;
  side = d;
  ratio_qty = 1;
}

-- A short and a long leg of one right and expiry.
abbrev pub vertical : StructureKind → ℕ → Right → ℕ → ℕ × ℕ → ℕ × ℕ → Structure
vertical kind name r e (sa, a) (sb, b) = record {
  kind = kind;
  underlying = name;
  legs = one sa r a e short ∷ one sb r b e long ∷ [];
}

-- The strikes as a credit has them: the long leg is the further one.
abbrev pub IsWing : Right → ℕ → ℕ → Type 0
IsWing call a b = a < b
IsWing put a b = b < a

-- The loss of a wing of width `w` sold for `credit`: it is reported, and the credit is below `w`.
abbrev pub wing_loss : ℕ → Decimal → ℤ
wing_loss w net = pos 100 *ℤ (pos w -ℤ abs net)

module _ (kind : StructureKind) (name e : ℕ) (short_leg long_leg : ℕ × ℕ) (net : Decimal) where
  abbrev wing : Right → Structure
  wing r = vertical kind name r e short_leg long_leg

  call_loss :
      {m : Decimal}
      → is_credit_kind kind ≡ true
      → short_leg.1 < long_leg.1
      → max_loss_per_spread (wing call) net ≡ ok m
      → m ≡ wing_loss (long_leg.1 - short_leg.1) net
  unfolding max_loss_per_spread quantity
  call_loss c o h = ground arith

  put_loss :
      {m : Decimal}
      → is_credit_kind kind ≡ true
      → long_leg.1 < short_leg.1
      → max_loss_per_spread (wing put) net ≡ ok m
      → m ≡ wing_loss (short_leg.1 - long_leg.1) net
  unfolding max_loss_per_spread quantity
  put_loss c o h = ground arith

  -- The legs at the spot price `s`.
  worth :
      (r : Right) (s : ℕ)
      → (received s (wing r).legs ≡ intrinsic r long_leg.1 s)
        × (owed s (wing r).legs ≡ intrinsic r short_leg.1 s)
  unfolding received owed value_at
  worth call s = (omega arith, omega arith)
  worth put s = (omega arith, omega arith)

  profit_lem :
      (r : Right) (s : ℕ)
      → profit_at s (wing r) net
        ≡ pos 100 *ℤ (pos (intrinsic r long_leg.1 s) -ℤ pos (intrinsic r short_leg.1 s) -ℤ net)
  unfolding profit_at
  profit_lem r s = rw ((worth r s).0, (worth r s).1)

-- A wing of width `w` that loses `loss` on its legs, against the loss that was reported.
pub wing_bound :
    (w gain loss : ℕ) (net : Decimal)
    → net ≤ℤ pos 0
    → loss ≤ gain + w
    → neg (wing_loss w net) ≤ℤ pos 100 *ℤ (pos gain -ℤ pos loss -ℤ net)
wing_bound w gain loss net n h = omega (
  int_laws,
  abs_parts net,
  pos_part-eq-zero net n,
  scaled_parts 100 (pos w -ℤ abs net),
  scaled_parts 100 (pos gain -ℤ pos loss -ℤ net),
)

pub wing_attained :
    (w gain loss : ℕ) (net : Decimal)
    → net ≤ℤ pos 0
    → loss ≡ gain + w
    → pos 100 *ℤ (pos gain -ℤ pos loss -ℤ net) ≡ neg (wing_loss w net)
wing_attained w gain loss net n h = omega (
  int_laws,
  abs_parts net,
  pos_part-eq-zero net n,
  scaled_parts 100 (pos w -ℤ abs net),
  scaled_parts 100 (pos gain -ℤ pos loss -ℤ net),
)

-- What a shape has to show: no spot price loses more than `m`, and some spot price loses just `m`.
abbrev pub IsWorstCase : Structure → Decimal → ℤ → Type 0
IsWorstCase st net m =
    ((s : ℕ) → neg m ≤ℤ profit_at s st net) × ((s : ℕ) × (profit_at s st net ≡ neg m))

-- For a vertical credit spread of one contract a leg whose long leg is the further one, with a net
-- price of at most zero, for which `max_loss_per_spread` reports a loss: no spot price at expiry
-- loses more, and one loses just that.
pub credit_spread-IsWorstCase :
    (kind : StructureKind) (name e : ℕ) (r : Right) (short_leg long_leg : ℕ × ℕ) (net : Decimal)
    {m : ℤ}
    → is_credit_kind kind ≡ true
    → IsWing r short_leg.1 long_leg.1
    → net ≤ℤ pos 0
    → max_loss_per_spread (vertical kind name r e short_leg long_leg) net ≡ ok m
    → IsWorstCase (vertical kind name r e short_leg long_leg) net m
credit_spread-IsWorstCase kind name e call a b net c o n h =
    rw (call_loss kind name e a b net c o h) (
      λ s.
          rw (profit_lem kind name e a b net call s)
            (wing_bound (b.1 - a.1) (s - b.1) (s - a.1) net n (omega arith)),
      (
        b.1,
        profit_lem kind name e a b net call b.1
            ∙ wing_attained (b.1 - a.1) (b.1 - b.1) (b.1 - a.1) net n (omega arith),
      ),
    )
credit_spread-IsWorstCase kind name e put a b net c o n h =
    rw (put_loss kind name e a b net c o h) (
      λ s.
          rw (profit_lem kind name e a b net put s)
            (wing_bound (a.1 - b.1) (b.1 - s) (a.1 - s) net n (omega arith)),
      (
        0,
        profit_lem kind name e a b net put 0
            ∙ wing_attained (a.1 - b.1) (b.1 - 0) (a.1 - 0) net n (omega arith),
      ),
    )
