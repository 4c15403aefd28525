-- ===== src/Selection/Picks.antt =====
-- The strikes that `nearest` and `_pick` of glassbox/chain.py choose, and what holds of a result.
use glassbox_ai_quant.Selection.Quotes.{
  Chosen, no_strikes, undefined_risk, chosen, ◌>>=◌, ◌>>◌, refuse_if, ContractQuote, distance,
  nearest_after, nearest, prefer, pick,
}
use glassbox_ai_quant.Prelude.{
  if◌then◌else◌, Bool-cases, keep_if, All, IsIn, ◌≡◌, refl, inl, inr, Bool, true, false, List, [],
  ◌∷◌, arith,
}
use glassbox_ai_quant.Prelude.Int.{pos, ◌-ℤ◌, abs, ◌≤ℤ◌, ◌<ℤ◌, ltb_ℤ, leb_ℤ}
use glassbox_ai_quant.Prelude.Decimal.{Decimal}
use glassbox_ai_quant.Structures.{Right}

pub bound {ℓ κ} :
    {A : Type ℓ} {B : Type κ} (m : Chosen A) (f : A → Chosen B) (b : B)
    → (m >>= f) ≡ chosen b
    → (a : A) × (m ≡ chosen a) × (f a ≡ chosen b)
unfolding ◌>>=◌
bound no_strikes f b e = absurd (ground (arith, e))
bound (undefined_risk x) f b e = absurd (ground (arith, e))
bound (chosen a) f b e = (a, refl, e)

-- What holds of the result, if there is one.
unfoldable pub Holds {ℓ κ} : {A : Type ℓ} → (A → Type κ) → Chosen A → Type κ
Holds Q (chosen a) = Q a
Holds Q _ = Unit

pub Holds-bind {ℓ ℓ' κ} :
    {A : Type ℓ} {B : Type ℓ'} (Q : B → Type κ) (m : Chosen A) (f : A → Chosen B)
    → ((a : A) → m ≡ chosen a → Holds Q (f a))
    → Holds Q (m >>= f)
unfolding Holds ◌>>=◌
Holds-bind Q no_strikes f h = tt
Holds-bind Q (undefined_risk x) f h = tt
Holds-bind Q (chosen a) f h = h a refl

pub Holds-chosen {ℓ κ} :
    {A : Type ℓ} (Q : A → Type κ) (m : Chosen A) (a : A) → Holds Q m → m ≡ chosen a → Q a
unfolding Holds
Holds-chosen Q m a h e = (rw e at h)

pub Holds-return {ℓ κ} : {A : Type ℓ} (Q : A → Type κ) (a : A) → Q a → Holds Q (chosen a)
unfolding Holds
Holds-return Q a h = h

pub Holds-refuse {ℓ' κ} :
    {B : Type ℓ'} (Q : B → Type κ) (test : Bool) (m : Chosen B)
    → (test ≡ false → Holds Q m)
    → Holds Q (refuse_if test >> m)
unfolding Holds ◌>>◌
Holds-refuse Q true m h = tt
Holds-refuse Q false m h = h refl

-- A quote of a chain, of one right, that can be traded: it has a bid, and a higher ask.
pub record IsQuote (r : Right) (chain : List ContractQuote) (c : ContractQuote) : Type 0 where
  pub listed : IsIn c chain
  pub of_right : c.right ≡ r
  pub has_bid : pos 0 <ℤ c.bid
  pub has_spread : c.bid <ℤ c.ask

abbrev pub AllOf : Right → List ContractQuote → List ContractQuote → Type 0
AllOf r chain cs = All (IsQuote r chain) cs

module _ (P : ContractQuote → Type 0) where
  pub nearest_after-All :
      (t : Decimal) (b : ContractQuote) (cs : List ContractQuote)
      → P b
      → All P cs
      → P (nearest_after t b cs)
  unfolding nearest_after
  nearest_after-All t b [] h k = h
  nearest_after-All t b (c ∷ cs) h k = elim (Bool-cases (ltb_ℤ (distance t c) (distance t b))) [
    | inl e ↦ rw e (nearest_after-All t c cs k.0 k.1)
    | inr e ↦ rw e (nearest_after-All t b cs h k.1)
  ]

  pub nearest-All :
      (cs : List ContractQuote) (t : Decimal) (c : ContractQuote)
      → All P cs
      → nearest cs t ≡ chosen c
      → P c
  unfolding nearest
  nearest-All [] t c k e = absurd (ground (arith, e))
  nearest-All (b ∷ bs) t c k e =
      Holds-chosen P _ c (Holds-return P _ (nearest_after-All t b bs k.0 k.1)) e

  pub prefer-All :
      (g : ContractQuote) (tol : Decimal) (m : Chosen ContractQuote)
      → P g
      → ((b : ContractQuote) → m ≡ chosen b → P b)
      → P (prefer g tol m)
  prefer-All g tol no_strikes h k = h
  prefer-All g tol (undefined_risk x) h k = h
  prefer-All g tol (chosen b) h k =
      elim (Bool-cases (leb_ℤ (abs (pos b.strike -ℤ pos g.strike)) tol)) [
        | inl e ↦ rw e (k b refl)
        | inr e ↦ rw e h
      ]

  pub pick-All :
      (cs full : List ContractQuote) (t tol : Decimal) (c : ContractQuote)
      → All P cs
      → All P full
      → pick cs full t tol ≡ chosen c
      → P c
  unfolding pick
  pick-All cs full t tol c h k e =
      let (g, near, rest) = bound (nearest full t) _ c e in
      Holds-chosen P _ c
        (Holds-return P _ (
          prefer-All g tol (nearest cs t) (nearest-All full t g k near)
            (λ b f. nearest-All cs t b h f)))
        rest

pub kept_both :
    (p : ContractQuote → Bool) (Q : ContractQuote → Type 0) (cs : List ContractQuote)
    → All Q cs
    → All (λ (c : ContractQuote). (p c ≡ true) × Q c) (keep_if p cs)
kept_both p Q [] h = tt
kept_both p Q (c ∷ cs) h = elim (Bool-cases (p c)) [
  | inl e ↦ rw e ((e, h.0), kept_both p Q cs h.1)
  | inr e ↦ rw e (kept_both p Q cs h.1)
]

-- What is picked from the quotes that pass a test passes it and is such a quote.
pub picked :
    (p : ContractQuote → Bool) (r : Right) (chain cs full : List ContractQuote) (t tol : Decimal)
    (c : ContractQuote)
    → AllOf r chain cs
    → AllOf r chain full
    → pick (keep_if p cs) (keep_if p full) t tol ≡ chosen c
    → (p c ≡ true) × IsQuote r chain c
picked p r chain cs full t tol c h k e =
    pick-All (λ (d : ContractQuote). (p d ≡ true) × IsQuote r chain d) (keep_if p cs)
      (keep_if p full) t tol c (kept_both p (IsQuote r chain) cs h)
      (kept_both p (IsQuote r chain) full k) e

nearer_lem :
    (t : Decimal) (b c : ContractQuote)
    → let nearer = if ltb_ℤ (distance t c) (distance t b) then c else b in
      (distance t nearer ≤ℤ distance t b) × (distance t nearer ≤ℤ distance t c)
nearer_lem t b c = elim (Bool-cases (ltb_ℤ (distance t c) (distance t b))) [
  | inl e ↦ rw e (ground (arith, e), omega arith)
  | inr e ↦ rw e (omega arith, ground (arith, e))
]

nearest_after_least :
    (t : Decimal) (b : ContractQuote) (cs : List ContractQuote)
    → (distance t (nearest_after t b cs) ≤ℤ distance t b)
      × All (λ (d : ContractQuote). distance t (nearest_after t b cs) ≤ℤ distance t d) cs
unfolding nearest_after
nearest_after_least t b [] = (omega arith, tt)
nearest_after_least t b (c ∷ cs) =
    let nearer = if ltb_ℤ (distance t c) (distance t b) then c else b in
    let (least, rest) = nearest_after_least t nearer cs in
    let (to_b, to_c) = nearer_lem t b c in
    (omega (arith, least, to_b), (omega (arith, least, to_c), rest))

-- The quote that `nearest` returns has no quote of the list nearer to the target.
pub nearest_least :
    (cs : List ContractQuote) (t : Decimal) (c : ContractQuote)
    → nearest cs t ≡ chosen c
    → All (λ (d : ContractQuote). distance t c ≤ℤ distance t d) cs
unfolding nearest
nearest_least [] t c e = tt
nearest_least (b ∷ bs) t c e =
    Holds-chosen
      (λ (x : ContractQuote). All (λ (d : ContractQuote). distance t x ≤ℤ distance t d) (b ∷ bs))
      (chosen (nearest_after t b bs)) c (Holds-return _ _ (nearest_after_least t b bs)) e

prefer_near :
    (g : ContractQuote) (tol : Decimal) (m : Chosen ContractQuote)
    → pos 0 ≤ℤ tol
    → abs (pos (prefer g tol m).strike -ℤ pos g.strike) ≤ℤ tol
unfolding abs ◌-ℤ◌
prefer_near g tol no_strikes h = ground arith
prefer_near g tol (undefined_risk x) h = ground arith
prefer_near g tol (chosen b) h =
    elim (Bool-cases (leb_ℤ (abs (pos b.strike -ℤ pos g.strike)) tol)) [
      | inl e ↦ rw e (ground (arith, e))
      | inr e ↦ rw e (ground arith)
    ]

-- Liquidity never redesigns a structure: under a tolerance of zero or more, what `_pick` returns is at
-- most the tolerance away from the strike of the whole side that `nearest` finds, and no quote of the
-- whole side is nearer to the target than that one.
pub pick_stays_near :
    (cs full : List ContractQuote) (t tol : Decimal) (c : ContractQuote)
    → pos 0 ≤ℤ tol
    → pick cs full t tol ≡ chosen c
    → (g : ContractQuote) × (nearest full t ≡ chosen g)
      × All (λ (d : ContractQuote). distance t g ≤ℤ distance t d) full
      × (abs (pos c.strike -ℤ pos g.strike) ≤ℤ tol)
unfolding pick
pick_stays_near cs full t tol c h e =
    let (g, near, rest) = bound (nearest full t) _ c e in
    (
      g,
      near,
      nearest_least full t g near,
      Holds-chosen (λ (x : ContractQuote). abs (pos x.strike -ℤ pos g.strike) ≤ℤ tol)
          (chosen (prefer g tol (nearest cs t))) c
          (Holds-return _ _ (prefer_near g tol (nearest cs t) h)) rest,
    )
