-- ===== src/Filter/Overlap.antt =====
-- How alike the items of glassbox/signal/filter.py are: an item is as alike as can be to its own entry.
use glassbox_ai_quant.Prelude.{
  Bool-cases, length, keep_if, All, ℕ, ◌+◌, ◌≡◌, refl, ap, ◌⊎◌, inl, inr, Bool, true, false, not,
  List, [], ◌∷◌, ◌++◌, arith,
}
use glassbox_ai_quant.Prelude.Int.{
  pos, pos_part, neg_part, ◌-ℤ◌, ◌≤ℤ◌, max_ℤ-ge_left, max_ℤ-ge_right,
}
use glassbox_ai_quant.Prelude.Decimal.{whole}
use glassbox_ai_quant.Prelude.Rounding.{over_self}
use glassbox_ai_quant.Filter.Words.{Text, same_text, is_member, is_empty, jaccard}
use glassbox_ai_quant.Filter.News.{Entry, most_alike, novelty_among}

same_text_refl : (t : Text) → same_text t t ≡ true
same_text_refl [] = refl
same_text_refl (c ∷ cs) = ground (arith, same_text_refl cs)

-- Every text of a list is a member of a list that has all its members.
members_in :
    (l full : List Text)
    → ((t : Text) → is_member t l ≡ true → is_member t full ≡ true)
    → All (λ t. is_member t full ≡ true) l
members_in [] full h = tt
members_in (t ∷ ts) full h =
    (h t (rw (same_text_refl t) refl), members_in ts full (λ u e. h u (ground (arith, e))))

keep-All : (p : Text → Bool) (l : List Text) → All (λ t. p t ≡ true) l → keep_if p l ≡ l
keep-All p [] h = refl
keep-All p (t ∷ ts) h = rw (h.0, keep-All p ts h.1) refl

keep_none :
    (p : Text → Bool) (l : List Text) → All (λ t. p t ≡ true) l → keep_if (λ t. not (p t)) l ≡ []
keep_none p [] h = refl
keep_none p (t ∷ ts) h = rw (h.0, keep_none p ts h.1) refl

plus_zero : (n : ℕ) → n + 0 ≡ n
plus_zero n = omega arith

-- A set that is not empty shares all with itself.
pub jaccard_self : (a : List Text) → is_empty a ≡ false → jaccard a a ≡ whole 1
unfolding jaccard
jaccard_self [] e = ground (arith, e)
jaccard_self (t ∷ ts) e =
    let full = t ∷ ts in
    let h = members_in full full (λ u k. k) in
    rw
      (
        keep-All (λ u. is_member u full) full h,
        keep_none (λ u. is_member u full) full h,
        plus_zero (length full),
      )
      (over_self (whole (length full)) (omega arith))

-- `e` stands in the list.
abbrev pub IsAmong : Entry → List Entry → Type 0
IsAmong e [] = ⊥
IsAmong e (d ∷ ds) = (d ≡ e) ⊎ IsAmong e ds

pub IsAmong-append : (e : Entry) (xs ys : List Entry) → IsAmong e xs → IsAmong e (xs ++ ys)
IsAmong-append e [] ys h = absurd h
IsAmong-append e (d ∷ ds) ys (inl p) = inl p
IsAmong-append e (d ∷ ds) ys (inr h) = inr (IsAmong-append e ds ys h)

pub IsAmong-last : (e : Entry) (xs : List Entry) → IsAmong e (xs ++ e ∷ [])
IsAmong-last e [] = inl refl
IsAmong-last e (d ∷ ds) = inr (IsAmong-last e ds)

pub IsAmong-keep :
    (p : Entry → Bool) (e : Entry) (xs : List Entry)
    → p e ≡ true
    → IsAmong e xs
    → IsAmong e (keep_if p xs)
IsAmong-keep p e [] k h = absurd h
IsAmong-keep p e (d ∷ ds) k (inl h) = rw (h, k) (inl refl)
IsAmong-keep p e (d ∷ ds) k (inr h) = elim (Bool-cases (p d)) [
  | inl q ↦ rw q (inr (IsAmong-keep p e ds k h))
  | inr q ↦ rw q (IsAmong-keep p e ds k h)
]

most_alike_bounds :
    (ts : List Text) (e d : Entry) (ds : List Entry)
    → IsAmong e (d ∷ ds)
    → jaccard ts e.1 ≤ℤ most_alike ts d ds
unfolding most_alike
most_alike_bounds ts e d [] (inl h) = rw h (omega arith)
most_alike_bounds ts e d [] (inr h) = absurd h
most_alike_bounds ts e d (c ∷ cs) (inl h) =
    rw h (max_ℤ-ge_left (jaccard ts e.1) (most_alike ts c cs))
most_alike_bounds ts e d (c ∷ cs) (inr h) =
    omega
      (arith, most_alike_bounds ts e c cs h, max_ℤ-ge_right (jaccard ts d.1) (most_alike ts c cs))

pub novelty_of_known :
    (ts : List Text) (e : Entry) (es : List Entry)
    → IsAmong e es
    → jaccard ts e.1 ≡ whole 1
    → novelty_among ts es ≤ℤ pos 0
unfolding ◌-ℤ◌
novelty_of_known ts e [] h j = absurd h
novelty_of_known ts e (d ∷ ds) h j =
    let k = most_alike_bounds ts e d ds h in ground (arith, ap pos_part j, ap neg_part j, k)
