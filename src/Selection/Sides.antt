-- ===== src/Selection/Sides.antt =====
-- The sides of a chain, by glassbox/chain.py, have quotes of the chain and of their right that can be
-- traded.
use glassbox_ai_quant.Selection.Quotes.{
  ContractQuote, is_tradable, place_quote, by_strike, side_of, is_liquid, or_all, liquid,
}
use glassbox_ai_quant.Prelude.{
  leb, Bool-cases, and-true, keep_if, All, IsIn, ◌≡◌, refl, inl, inr, Bool, true, ◌&&◌, List, [],
  ◌∷◌, arith,
}
use glassbox_ai_quant.Prelude.Int.{pos, ltb_ℤ}
use glassbox_ai_quant.Selection.Picks.{IsQuote, AllOf}
use glassbox_ai_quant.Config.{Config}
use glassbox_ai_quant.Structures.{Right, call, put, same_right}

module _ (P : ContractQuote → Type 0) where
  place-All :
      (c : ContractQuote) (cs : List ContractQuote) → P c → All P cs → All P (place_quote c cs)
  place-All c [] h k = (h, tt)
  place-All c (d ∷ ds) h k = elim (Bool-cases (leb c.strike d.strike)) [
    | inl e ↦ rw e (h, k)
    | inr e ↦ rw e (k.0, place-All c ds h k.1)
  ]

  by_strike-All : (cs : List ContractQuote) → All P cs → All P (by_strike cs)
  unfolding by_strike
  by_strike-All [] h = tt
  by_strike-All (c ∷ cs) h = place-All c (by_strike cs) h.0 (by_strike-All cs h.1)

  kept-All : (p : ContractQuote → Bool) (cs : List ContractQuote) → All P cs → All P (keep_if p cs)
  kept-All p [] h = tt
  kept-All p (c ∷ cs) h = elim (Bool-cases (p c)) [
    | inl e ↦ rw e (h.0, kept-All p cs h.1)
    | inr e ↦ rw e (kept-All p cs h.1)
  ]

  or_all-All : (cs side : List ContractQuote) → All P cs → All P side → All P (or_all cs side)
  or_all-All [] side h k = k
  or_all-All (c ∷ cs) side h k = h

same_right_lem : (a b : Right) → same_right a b ≡ true → a ≡ b
same_right_lem call call e = refl
same_right_lem put put e = refl
same_right_lem call put e = absurd (ground (arith, e))
same_right_lem put call e = absurd (ground (arith, e))

quote_lem :
    (r : Right) (chain : List ContractQuote) (c : ContractQuote)
    → IsIn c chain
    → (same_right c.right r && is_tradable c) ≡ true
    → IsQuote r chain c
quote_lem r chain c k e =
    let (right, trades) = and-true (same_right c.right r) (is_tradable c) e in
    let (bid, spread) = and-true (ltb_ℤ (pos 0) c.bid) (ltb_ℤ c.bid c.ask) trades in
    record {
      listed = k;
      of_right = same_right_lem c.right r right;
      has_bid = ground (arith, bid);
      has_spread = ground (arith, spread);
    }

kept_quotes :
    (r : Right) (chain cs : List ContractQuote)
    → ((c : ContractQuote) → IsIn c cs → IsIn c chain)
    → AllOf r chain (keep_if (λ c. same_right c.right r && is_tradable c) cs)
kept_quotes r chain [] h = tt
kept_quotes r chain (c ∷ cs) h =
    let rest = kept_quotes r chain cs (λ d k. h d (inr k)) in
    elim (Bool-cases (same_right c.right r && is_tradable c)) [
      | inl e ↦ rw e (quote_lem r chain c (h c (inl refl)) e, rest)
      | inr e ↦ rw e rest
    ]

pub side_of-AllOf : (r : Right) (chain : List ContractQuote) → AllOf r chain (side_of r chain)
unfolding side_of
side_of-AllOf r chain = by_strike-All (IsQuote r chain) _ (kept_quotes r chain chain (λ c k. k))

pub liquid-AllOf :
    (r : Right) (chain side : List ContractQuote) (cfg : Config)
    → AllOf r chain side
    → AllOf r chain (liquid side cfg)
unfolding liquid
liquid-AllOf r chain side cfg h =
    or_all-All (IsQuote r chain) _ side (kept-All (IsQuote r chain) (is_liquid cfg) side h) h
