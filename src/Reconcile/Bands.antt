-- ===== src/Reconcile/Bands.antt =====
-- When `reconcile` of glassbox/reconcile.py finds the books and the broker in agreement.
use glassbox_ai_quant.Prelude.{
  ◌==◌, ==_iff, Bool-cases, keep_if, All, contains, Dict, ℕ, ◌≡◌, refl, sym, ◌∙◌, ◌↔◌, inl, inr,
  Bool, true, false, ◌&&◌, ◌||◌, List, [], ◌∷◌, ◌++◌, arith,
}
use glassbox_ai_quant.Prelude.Int.{ℤ, pos, ◌+ℤ◌, ◌-ℤ◌, ◌≤ℤ◌, min_ℤ, max_ℤ}
use glassbox_ai_quant.Reconcile.{
  Books, BrokerPosition, held, Detail, detail, band_low, band_high, Standing, in_band, standing,
  symbol_standing, place, sorted_set, keys, symbols, broker_has_more, broker_lost, differs,
  is_empty, reconcile,
}

-- The broker's count of a symbol is between the least and the largest of the four corners.
pub record InBand (d : Detail) (s : ℕ) : Type 0 where
  pub above : band_low (held d.local s) (held d.arriving s) (held d.leaving s) ≤ℤ held d.broker s
  pub below : held d.broker s ≤ℤ band_high (held d.local s) (held d.arriving s) (held d.leaving s)

contains-place : (k j : ℕ) (xs : List ℕ) → contains k (place j xs) ≡ (k == j || contains k xs)
contains-place k j [] = refl
contains-place k j (x ∷ xs) = ground (arith, contains-place k j xs)

pub contains-sorted_set : (k : ℕ) (xs : List ℕ) → contains k (sorted_set xs) ≡ contains k xs
unfolding sorted_set
contains-sorted_set k [] = refl
contains-sorted_set k (x ∷ xs) =
    rw (contains-place k x (sorted_set xs), contains-sorted_set k xs) refl

pub contains-append :
    (k : ℕ) (xs ys : List ℕ) → contains k (xs ++ ys) ≡ (contains k xs || contains k ys)
contains-append k [] ys = refl
contains-append k (x ∷ xs) ys = rw (contains-append k xs ys) (ground arith)

pub unheld : (s : ℕ) (d : Dict ℤ) → contains s (keys d) ≡ false → held d s ≡ pos 0
unheld s [] h = refl
unheld s ((k, q) ∷ d) h = ground (arith, unheld s d)

standing_exact :
    (base a l b : ℤ)
    → (standing base a l b ≡ in_band) ↔ ((band_low base a l ≤ℤ b) × (b ≤ℤ band_high base a l))
unfolding standing
standing_exact base a l b = (λ h. (ground arith, ground arith), λ h. ground (arith, h.0, h.1))

-- Every entry of a list that satisfies none of the three tests has the fourth standing.
Fine : (ℕ → Standing) → List ℕ → Type 0
Fine f = All (λ s. f s ≡ in_band)

fine_lem :
    (f : ℕ → Standing) (xs : List ℕ)
    → ((is_empty (keep_if (λ s. broker_lost (f s)) xs)
          && is_empty (keep_if (λ s. broker_has_more (f s)) xs)
          && is_empty (keep_if (λ s. differs (f s)) xs))
        ≡ true)
      ↔ Fine f xs
unfolding Fine
fine_lem f [] = (λ h. tt, λ h. refl)
fine_lem f (x ∷ xs) = (
  λ h. (ground arith, (fine_lem f xs).0 (ground arith)),
  λ h. ground (arith, h.0, (fine_lem f xs).1 h.1),
)

zero_band :
    (base a l b : ℤ)
    → base ≡ pos 0
    → a ≡ pos 0
    → l ≡ pos 0
    → b ≡ pos 0
    → (band_low base a l ≤ℤ b) × (b ≤ℤ band_high base a l)
unfolding band_low band_high min_ℤ max_ℤ ◌+ℤ◌ ◌-ℤ◌
zero_band base a l b p q r t = rw (p, q, r, t) (omega arith, omega arith)

contains-append_four :
    (s : ℕ) (ws xs ys zs : List ℕ)
    → contains s (ws ++ xs ++ ys ++ zs)
      ≡ (contains s ws || contains s xs || contains s ys || contains s zs)
contains-append_four s ws xs ys zs =
    rw
      (
        contains-append s (ws ++ xs ++ ys) zs,
        contains-append s (ws ++ xs) ys,
        contains-append s ws xs,
      )
      refl

named_lem :
    (d : Detail) (s : ℕ)
    → contains s (symbols d) ≡ (
        contains s (keys d.local)
        || contains s (keys d.arriving)
        || contains s (keys d.leaving)
        || contains s (keys d.broker))
unfolding symbols
named_lem d s =
    contains-sorted_set s (keys d.local ++ keys d.arriving ++ keys d.leaving ++ keys d.broker)
    ∙ contains-append_four s (keys d.local) (keys d.arriving) (keys d.leaving) (keys d.broker)

or-false : (a b : Bool) → (a || b) ≡ false → (a ≡ false) × (b ≡ false)
or-false true true h = absurd (ground arith)
or-false true false h = absurd (ground arith)
or-false false b h = (refl, h)

-- A symbol that no dict names is in its band.
unnamed_lem : (d : Detail) (s : ℕ) → contains s (symbols d) ≡ false → InBand d s
unnamed_lem d s h =
    let k = or-false _ _ (sym (named_lem d s) ∙ h) in
    let a = or-false _ _ k.0 in
    let l = or-false _ _ a.0 in
    let z =
      zero_band _ _ _ _ (unheld s d.local l.0) (unheld s d.arriving l.1) (unheld s d.leaving a.1)
        (unheld s d.broker k.1) in
    record { above = z.0; below = z.1 }

in_band_named : (d : Detail) (s : ℕ) → (symbol_standing d s ≡ in_band) ↔ InBand d s
unfolding symbol_standing
in_band_named d s = (
  λ h. let b = (standing_exact _ _ _ _).0 h in record { above = b.0; below = b.1 },
  λ i. (standing_exact _ _ _ _).1 (i.above, i.below),
)

Fine-at :
    (f : ℕ → Standing) (xs : List ℕ) (s : ℕ) → Fine f xs → contains s xs ≡ true → f s ≡ in_band
unfolding Fine
Fine-at f [] s h c = absurd (ground arith)
Fine-at f (x ∷ xs) s h c = elim (Bool-cases (s == x)) [
  | inl e ↦ rw ((==_iff s x).0 e) h.0
  | inr e ↦ Fine-at f xs s h.1 (ground (arith, e, c))
]

Fine-from : (f : ℕ → Standing) (xs : List ℕ) → ((s : ℕ) → f s ≡ in_band) → Fine f xs
unfolding Fine
Fine-from f [] h = tt
Fine-from f (x ∷ xs) h = (h x, Fine-from f xs h)

-- `reconcile` reports ok exactly when the broker's count of every symbol, named anywhere or not, is in
-- the band that the settled, the arriving and the leaving legs span.
pub InBand-exact :
    (b : Books) (ps : List BrokerPosition)
    → ((reconcile b ps).ok ≡ true) ↔ ((s : ℕ) → InBand (detail b ps) s)
unfolding reconcile
InBand-exact b ps =
    let d = detail b ps in
    (
      λ h s. elim (Bool-cases (contains s (symbols d))) [
        | inl e ↦ (in_band_named d s).0 (
            Fine-at (symbol_standing d) (symbols d) s
              ((fine_lem (symbol_standing d) (symbols d)).0 h) e)
        | inr e ↦ unnamed_lem d s e
      ],
      λ h.
          (fine_lem (symbol_standing d) (symbols d)).1
            (Fine-from (symbol_standing d) (symbols d) (λ s. (in_band_named d s).1 (h s))),
    )
