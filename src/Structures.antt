-- ===== src/Structures.antt =====
-- glassbox/structures.py. Symbols and tickers are only compared and ordered, so numbers stand for
-- them; a date is a day number; a strike is a price above zero, in millionths of a dollar. A raised
-- exception is the `err` of a result, without its text.
use glassbox_ai_quant.Prelude.{
  ltb, ◌==◌, if◌then◌else◌, length, contains, ℕ, ◌+◌, ◌-◌, ◌≡◌, refl, ◌⊎◌, inl, inr, Bool, true,
  false, not, ◌&&◌, List, [], ◌∷◌, ◌++◌,
}
use glassbox_ai_quant.Prelude.Int.{pos, ◌-ℤ◌, ◌*ℤ◌, abs, leb_ℤ}
use glassbox_ai_quant.Prelude.Decimal.{Decimal}
pub mod Payoff
pub mod Bounded
pub mod WorstCase
pub mod Condor

pub data Right : Type 0 where
  call put : Right

pub data LegSide : Type 0 where
  long short : LegSide

pub data StructureKind : Type 0 where
  bull_put_spread bear_call_spread iron_condor : StructureKind
  call_debit_spread put_debit_spread long_strangle : StructureKind

-- `kind in CREDIT_STRUCTURES`
abbrev pub is_credit_kind : StructureKind → Bool
is_credit_kind bull_put_spread = true
is_credit_kind bear_call_spread = true
is_credit_kind iron_condor = true
is_credit_kind _ = false

pub record Leg : Type 0 where
  pub symbol : ℕ
  pub right : Right
  pub strike : ℕ
  pub expiry : ℕ
  pub side : LegSide
  pub ratio_qty : ℕ

pub record Structure : Type 0 where
  pub kind : StructureKind
  pub underlying : ℕ
  pub legs : List Leg

-- `Structure.is_credit`
abbrev pub is_credit : Structure → Bool
is_credit s = is_credit_kind s.kind

-- The exceptions of this module, and the reason that each was raised for.
pub data StructureError : Type 0 where
  too_few_legs mixed_expiries no_width : StructureError  -- UndefinedRiskError
  uncovered : Right → StructureError  -- UndefinedRiskError
  free_debit arbitrage_credit : StructureError  -- ImplausiblePricingError

pub data Result {ℓ} (A : Type ℓ) : Type ℓ where
  err : StructureError → Result A
  ok : A → Result A

infixl 5 ◌>>=◌ ◌>>◌
abbrev pub ◌>>=◌ {ℓ κ} : {A : Type ℓ} {B : Type κ} → Result A → (A → Result B) → Result B
err why >>= next = err why
ok x >>= next = next x

abbrev pub ◌>>◌ {ℓ} : {B : Type ℓ} → Result (Unit {0}) → Result B → Result B
first >> second = first >>= λ _. second

pub Result-cases : (r : Result (Unit {0})) → (r ≡ ok tt) ⊎ ((e : StructureError) × (r ≡ err e))
Result-cases (ok tt) = inl refl
Result-cases (err e) = inr (e, refl)

abbrev pub raise_if : Bool → StructureError → Result (Unit {0})
raise_if true e = err e
raise_if false e = ok tt

abbrev pub same_right : Right → Right → Bool
same_right call call = true
same_right put put = true
same_right _ _ = false

abbrev pub same_side : LegSide → LegSide → Bool
same_side long long = true
same_side short short = true
same_side _ _ = false

-- `{leg.expiry for leg in legs}`, as a list without repetitions.
expiries : List Leg → List ℕ
expiries [] = []
expiries (l ∷ ls) =
    let rest = expiries ls in if contains l.expiry rest then rest else l.expiry ∷ rest

-- `sum(l.ratio_qty for l in legs if l.right is right and l.side is side)`
unfoldable pub quantity : Right → LegSide → List Leg → ℕ
quantity r d [] = 0
quantity r d (l ∷ ls) =
    let rest = quantity r d ls in
    if same_right l.right r && same_side l.side d then l.ratio_qty + rest else rest

-- One turn of the loop over the two rights.
assert_covered : Right → List Leg → Result (Unit {0})
assert_covered r ls = raise_if (ltb (quantity r long ls) (quantity r short ls)) (uncovered r)

unfoldable pub assert_defined_risk : Structure → Result (Unit {0})
unfolding expiries assert_covered
assert_defined_risk s = do
  raise_if (ltb (length s.legs) 2) too_few_legs
  raise_if (not (length (expiries s.legs) == 1)) mixed_expiries
  assert_covered call s.legs
  assert_covered put s.legs

-- `[leg.strike for leg in legs if leg.right is right]`
strikes : Right → List Leg → List ℕ
strikes r [] = []
strikes r (l ∷ ls) =
    let rest = strikes r ls in if same_right l.right r then l.strike ∷ rest else rest

-- `max(xs)` and `min(xs)` of a list that starts with `x`.
greatest : ℕ → List ℕ → ℕ
greatest x [] = x
greatest x (y ∷ ys) = greatest (if ltb x y then y else x) ys

least : ℕ → List ℕ → ℕ
least x [] = x
least x (y ∷ ys) = least (if ltb y x then y else x) ys

-- The width that one right contributes, if it has two strikes.
widths : List ℕ → List ℕ
unfolding greatest least
widths (x ∷ y ∷ xs) = (greatest x (y ∷ xs) - least x (y ∷ xs)) ∷ []
widths _ = []

-- The credit branch, once the widths are collected.
credit_loss : Decimal → List ℕ → Result Decimal
unfolding greatest
credit_loss credit [] = err no_width
credit_loss credit (w ∷ ws) =
    let width = pos (greatest w ws) in
    if leb_ℤ width credit then err arbitrage_credit else ok (pos 100 *ℤ (width -ℤ credit))

-- The branch on `structure.is_credit`, after the assertion.
loss_of : Structure → Decimal → Result Decimal
unfolding strikes widths credit_loss abs
loss_of s net_price =
    if is_credit s
    then credit_loss (abs net_price) (widths (strikes call s.legs) ++ widths (strikes put s.legs))
    else if leb_ℤ (abs net_price) (pos 0)
    then err free_debit
    else ok (pos 100 *ℤ abs net_price)

unfoldable pub max_loss_per_spread : Structure → Decimal → Result Decimal
unfolding assert_defined_risk loss_of
max_loss_per_spread s net_price = do assert_defined_risk s; loss_of s net_price
