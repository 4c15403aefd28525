-- ===== src/Selection/Quotes.antt =====
-- glassbox/chain.py: the quotes of a chain, and the choice of a strike. A strike is a price above zero
-- in millionths, as in Structures; the tolerances of 1e-9 are below a millionth, where sums are exact.
use glassbox_ai_quant.Prelude.{
  ltb, leb, if◌then◌else◌, keep_if, ℕ, ◌+◌, ◌-◌, ◌*◌, ◌/◌, ◌%◌, max, Bool, true, false, ◌&&◌,
  Option, none, some, List, [], ◌∷◌, map,
}
use glassbox_ai_quant.Prelude.Int.{pos, pos_part, ◌+ℤ◌, ◌-ℤ◌, ◌*ℤ◌, abs, ltb_ℤ, leb_ℤ, floor_div}
use glassbox_ai_quant.Prelude.Decimal.{Decimal, whole, times, over}
use glassbox_ai_quant.Config.{Config}
use glassbox_ai_quant.Structures.{Right, call, put, StructureError, same_right}
use glassbox_ai_quant.Reconcile.{sorted_set}

-- How a choice ends: with NoSuitableStrikesError, with UndefinedRiskError, or with a result.
pub data Chosen {ℓ} (A : Type ℓ) : Type ℓ where
  no_strikes : Chosen A
  undefined_risk : StructureError → Chosen A
  chosen : A → Chosen A

infixl 5 ◌>>=◌ ◌>>◌
unfoldable pub ◌>>=◌ {ℓ κ} : {A : Type ℓ} {B : Type κ} → Chosen A → (A → Chosen B) → Chosen B
no_strikes >>= f = no_strikes
undefined_risk e >>= f = undefined_risk e
chosen x >>= f = f x

unfoldable pub ◌>>◌ {ℓ} : {B : Type ℓ} → Chosen (Unit {0}) → Chosen B → Chosen B
no_strikes >> second = no_strikes
undefined_risk e >> second = undefined_risk e
chosen x >> second = second

-- `if b: raise NoSuitableStrikesError`
abbrev pub refuse_if : Bool → Chosen (Unit {0})
refuse_if true = no_strikes
refuse_if false = chosen tt

pub record ContractQuote : Type 0 where
  pub symbol : ℕ
  pub right : Right
  pub strike : ℕ
  pub expiry : ℕ
  pub bid : Decimal
  pub ask : Decimal
  pub open_interest : ℕ

-- `ContractQuote.mid`
unfoldable pub mid : ContractQuote → Decimal
mid c = floor_div (c.bid +ℤ c.ask) (pos 2)

-- `ContractQuote.spread_pct_of_mid`; nothing stands for infinity
unfoldable pub spread_pct_of_mid : ContractQuote → Option Decimal
spread_pct_of_mid c =
    if ltb_ℤ (pos 0) (mid c) then some (over (pos 100 *ℤ (c.ask -ℤ c.bid)) (mid c)) else none

-- `ContractQuote.tradable`
abbrev pub is_tradable : ContractQuote → Bool
is_tradable c = ltb_ℤ (pos 0) c.bid && ltb_ℤ c.bid c.ask

-- A quote put before the first of the same or a higher strike.
abbrev pub place_quote : ContractQuote → List ContractQuote → List ContractQuote
place_quote c [] = c ∷ []
place_quote c (d ∷ ds) =
    let rest = place_quote c ds in if leb c.strike d.strike then c ∷ d ∷ ds else d ∷ rest

-- `sorted(quotes, key=lambda c: c.strike)`
unfoldable pub by_strike : List ContractQuote → List ContractQuote
by_strike [] = []
by_strike (c ∷ cs) = place_quote c (by_strike cs)

-- `_side`
unfoldable pub side_of : Right → List ContractQuote → List ContractQuote
side_of r chain = by_strike (keep_if (λ c. same_right c.right r && is_tradable c) chain)

-- `abs(c.strike - target_strike)`
abbrev pub distance : Decimal → ContractQuote → Decimal
distance target c = abs (pos c.strike -ℤ target)

-- The first of least distance, after `best`.
unfoldable pub nearest_after : Decimal → ContractQuote → List ContractQuote → ContractQuote
nearest_after target best [] = best
nearest_after target best (c ∷ cs) =
    nearest_after target (if ltb_ℤ (distance target c) (distance target best) then c else best) cs

-- `nearest`
unfoldable pub nearest : List ContractQuote → Decimal → Chosen ContractQuote
nearest [] target = no_strikes
nearest (c ∷ cs) target = chosen (nearest_after target c cs)

-- `atm_straddle_mid`
unfoldable pub atm_straddle_mid : List ContractQuote → Decimal → Chosen Decimal
atm_straddle_mid chain spot = do
  c ← nearest (side_of call chain) spot
  p ← nearest (side_of put chain) spot
  chosen (mid c +ℤ mid p)

-- The least difference of neighbours, of an ascending list that starts with `a` and `b`.
unfoldable pub least_gap : ℕ → ℕ → List ℕ → ℕ
least_gap a b [] = b - a
least_gap a b (c ∷ cs) = let rest = least_gap b c cs in if ltb rest (b - a) then rest else b - a

-- `max(1, round(target / increment))`, with ties to the even number
unfoldable pub steps_of : ℕ → ℕ → ℕ
steps_of t increment =
    let q = t / increment in
    let r = t % increment in
    max 1 (if ltb (r + r) increment then q else if ltb increment (r + r) then q + 1 else q + q % 2)

abbrev pub width_of : List ℕ → Decimal → Chosen Decimal
width_of (a ∷ b ∷ rest) target =
    let increment = least_gap a b rest in
    chosen (pos (increment * steps_of (pos_part target) increment))
width_of _ target = no_strikes

-- `_wing_width`
unfoldable pub wing_width : List ContractQuote → Decimal → Decimal → Chosen Decimal
wing_width contracts spot target_pct =
    width_of (sorted_set (map (λ (c : ContractQuote). c.strike) contracts))
      (over (times spot target_pct) (whole 100))

abbrev pub is_narrow : Decimal → Option Decimal → Bool
is_narrow most none = false
is_narrow most (some p) = leb_ℤ p most

-- The liquidity floor of the gate.
abbrev pub is_liquid : Config → ContractQuote → Bool
is_liquid cfg c =
    leb cfg.gate.min_open_interest c.open_interest
    && is_narrow cfg.gate.max_spread_pct_of_mid (spread_pct_of_mid c)

abbrev pub or_all : List ContractQuote → List ContractQuote → List ContractQuote
or_all [] side = side
or_all (c ∷ cs) side = c ∷ cs

-- `_liquid`
unfoldable pub liquid : List ContractQuote → Config → List ContractQuote
liquid side cfg = or_all (keep_if (is_liquid cfg) side) side

abbrev pub prefer : ContractQuote → Decimal → Chosen ContractQuote → ContractQuote
prefer geometric tolerance (chosen best) =
    if leb_ℤ (abs (pos best.strike -ℤ pos geometric.strike)) tolerance then best else geometric
prefer geometric tolerance _ = geometric

-- `_pick`
unfoldable pub pick :
    List ContractQuote → List ContractQuote → Decimal → Decimal → Chosen ContractQuote
pick liquids full target tolerance = do
  geometric ← nearest full target
  chosen (prefer geometric tolerance (nearest liquids target))
