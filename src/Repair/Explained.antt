-- ===== src/Repair/Explained.antt =====
-- Which positions the loop of `plan` of glassbox/repair.py resolves, and at which price.
use glassbox_ai_quant.Prelude.{
  ◌==◌, if◌then◌else◌, ==_iff, Bool-cases, and-true, All, Dict, ℕ, ◌*◌, ◌≤◌, ◌≡◌, refl, ap, ◌↔◌,
  ◌⊎◌, inl, inr, Bool, true, false, not, ◌&&◌, some, List, [], ◌∷◌, arith,
}
use glassbox_ai_quant.Prelude.Int.{
  ℤ, pos, negsuc, pos_part, neg_part, ◌+ℤ◌, ◌*ℤ◌, neg, ◌==ℤ◌, floor_div, +ℤ_parts, neg_parts,
  eq_of_parts, int_laws, scaled_parts,
}
use glassbox_ai_quant.Prelude.Decimal.{Decimal}
use glassbox_ai_quant.Structures.{LegSide, long, short, Leg}
use glassbox_ai_quant.Store.{Position}
use glassbox_ai_quant.Reconcile.{held, is_empty}
use glassbox_ai_quant.Execution.Lifecycle.Outcomes.{realized_pnl}
use glassbox_ai_quant.Repair.{
  FillSide, buy, sell, other_side, Fill, signed_cash, Refusal, refused, resolved, closes_leg,
  since_opened, hits, filled_qty, cash, need, scan, claims, symbols_where, is_held,
  is_claimed_twice, by_scan, judge, is_resolved,
}
use glassbox_ai_quant.Clock.{Instant}

-- The broker holds none of the position's legs, no leg is claimed twice, it has a contract at least, and
-- the fills since it opened close every leg to the last contract.
pub record IsExplained (isoformat : Instant → List ℕ) (rows : List Position) (broker : Dict ℤ)
    (fills : List Fill) (row : Position) : Type 0 where
  pub gone : All (λ (l : Leg). (held broker l.symbol ==ℤ pos 0) ≡ true) row.structure.legs
  pub unshared : All (λ (l : Leg). claims l.symbol rows ≤ 1) row.structure.legs
  pub some_qty : 1 ≤ row.qty
  pub closed_out :
      All (λ (l : Leg). filled_qty (hits isoformat row l fills) ≡ need row l) row.structure.legs

-- What fills change hands for, whichever way.
unfoldable pub turnover : List Fill → ℤ
turnover [] = pos 0
turnover (f ∷ fs) = (pos f.qty *ℤ f.price) +ℤ turnover fs

-- What it costs to close a leg by fills: a short leg is bought back, a long one is sold.
abbrev pub leg_exit : LegSide → List Fill → ℤ
leg_exit short fs = turnover fs
leg_exit long fs = neg (turnover fs)

-- What it costs to close legs by the fills that close them.
unfoldable pub exit_cost : (Instant → List ℕ) → Position → List Fill → List Leg → Decimal
exit_cost isoformat row fills [] = pos 0
exit_cost isoformat row fills (l ∷ ls) =
    leg_exit l.side (hits isoformat row l fills) +ℤ exit_cost isoformat row fills ls

none_where :
    (p : Leg → Bool) (ls : List Leg)
    → (is_empty (symbols_where p ls) ≡ true) ↔ All (λ (l : Leg). p l ≡ false) ls
none_where p [] = (λ h. tt, λ h. refl)
none_where p (l ∷ ls) = elim (Bool-cases (p l)) [
  | inl e ↦ (λ h. absurd (ground (arith, (rw e at h))), λ h. absurd (ground (arith, h.0, e)))
  | inr e ↦ (λ h. (e, (none_where p ls).0 (rw e at h)), λ h. rw e ((none_where p ls).1 h.1))
]

scan_complete :
    (isoformat : Instant → List ℕ) (row : Position) (fills : List Fill) (ls : List Leg)
    → (is_empty (scan isoformat row fills ls).missing ≡ true)
      ↔ All (λ (l : Leg). filled_qty (hits isoformat row l fills) ≡ need row l) ls
unfolding scan
scan_complete isoformat row fills [] = (λ h. tt, λ h. refl)
scan_complete isoformat row fills (l ∷ ls) =
    elim (Bool-cases (filled_qty (hits isoformat row l fills) == need row l)) [
      | inl e ↦ (
        λ h. ((==_iff _ _).0 e, (scan_complete isoformat row fills ls).0 (rw e at h)),
        λ h. rw e ((scan_complete isoformat row fills ls).1 h.1),
      )
      | inr e ↦ (
        λ h. absurd (ground (arith, (rw e at h))),
        λ h. absurd (ground (arith, (==_iff _ _).1 h.0, e)),
      )
    ]

-- The fills of a list are on the side that closes a leg.
abbrev AreClosing : LegSide → List Fill → Type 0
AreClosing side fs = All (λ (f : Fill). closes_leg side f.side ≡ true) fs

hits-AreClosing :
    (isoformat : Instant → List ℕ) (row : Position) (l : Leg) (fills : List Fill)
    → AreClosing l.side (hits isoformat row l fills)
unfolding hits
hits-AreClosing isoformat row l [] = tt
hits-AreClosing isoformat row l (f ∷ fs) =
    let rest = hits-AreClosing isoformat row l fs in
    elim (Bool-cases (
      l.symbol == f.symbol
      && closes_leg l.side f.side
      && since_opened isoformat row.opened_at f.at)) [
        | inl e ↦ rw e ((and-true _ _ (and-true _ _ e).0).1, rest)
        | inr e ↦ rw e rest
      ]

neg_swaps : (p : ℤ) → (pos_part (neg p) ≡ neg_part p) × (neg_part (neg p) ≡ pos_part p)
unfolding neg
neg_swaps (pos n) = (ground arith, ground arith)
neg_swaps (negsuc n) = (ground arith, ground arith)

scaled_neg : (q : ℕ) (p : ℤ) → pos q *ℤ neg p ≡ neg (pos q *ℤ p)
scaled_neg q p =
    let (a, b) = scaled_parts q (neg p) in
    let (c, d) = scaled_parts q p in
    let (up, down) = neg_swaps p in
    let (up', down') = neg_swaps (pos q *ℤ p) in
    eq_of_parts (pos q *ℤ neg p) (neg (pos q *ℤ p))
      (omega (arith, a, b, c, d, ap (λ n. q * n) up, ap (λ n. q * n) down, up', down'))

neg_sum : (a b : ℤ) → neg a +ℤ neg b ≡ neg (a +ℤ b)
neg_sum a b = omega (
  int_laws,
  neg_parts a,
  neg_parts b,
  neg_parts (a +ℤ b),
  +ℤ_parts a b,
  +ℤ_parts (neg a) (neg b),
  eq_of_parts (neg a +ℤ neg b) (neg (a +ℤ b)),
)

side_cases : (s : FillSide) → (s ≡ buy) ⊎ ((s ≡ sell) ⊎ (s ≡ other_side))
side_cases buy = inl refl
side_cases sell = inr (inl refl)
side_cases other_side = inr (inr refl)

-- What the sides of the fills say of the cash: a fill that closes a short leg costs its price, one that
-- closes a long leg brings it in.
signed_short : (f : Fill) → closes_leg short f.side ≡ true → signed_cash f ≡ f.price
unfolding signed_cash
signed_short f h = elim (side_cases f.side) [
  | inl e ↦ rw e refl
  | inr (inl e) ↦ absurd (ground (arith, (rw e at h)))
  | inr (inr e) ↦ absurd (ground (arith, (rw e at h)))
]

signed_long : (f : Fill) → closes_leg long f.side ≡ true → signed_cash f ≡ neg f.price
unfolding signed_cash
signed_long f h = elim (side_cases f.side) [
  | inl e ↦ absurd (ground (arith, (rw e at h)))
  | inr (inl e) ↦ rw e refl
  | inr (inr e) ↦ rw e refl
]

cash-exit : (side : LegSide) (fs : List Fill) → AreClosing side fs → cash fs ≡ leg_exit side fs
unfolding cash turnover
cash-exit short [] h = refl
cash-exit long [] h = unfold neg in refl
cash-exit short (f ∷ fs) h = rw (signed_short f h.0, cash-exit short fs h.1) refl
cash-exit long (f ∷ fs) h =
    rw (signed_long f h.0, cash-exit long fs h.1, scaled_neg f.qty f.price)
      (neg_sum (pos f.qty *ℤ f.price) (turnover fs))

scan-cash :
    (isoformat : Instant → List ℕ) (row : Position) (fills : List Fill) (ls : List Leg)
    → All (λ (l : Leg). filled_qty (hits isoformat row l fills) ≡ need row l) ls
    → (scan isoformat row fills ls).net_cash ≡ exit_cost isoformat row fills ls
unfolding scan exit_cost
scan-cash isoformat row fills [] h = refl
scan-cash isoformat row fills (l ∷ ls) h =
    rw
      (
        (==_iff _ _).1 h.0,
        scan-cash isoformat row fills ls h.1,
        cash-exit l.side (hits isoformat row l fills) (hits-AreClosing isoformat row l fills),
      )
      refl

All-map {κ κ'} :
    (P : Leg → Type κ) (Q : Leg → Type κ') (ls : List Leg)
    → ((l : Leg) → P l → Q l)
    → All P ls
    → All Q ls
All-map P Q [] f h = tt
All-map P Q (l ∷ ls) f h = (f l h.0, All-map P Q ls f h.1)

judged_lem :
    (a b c d : Bool) (w₁ w₂ w₃ w₄ : Refusal) (p r : Decimal) (m : List Fill)
    → (is_resolved (
          if not a
          then refused w₁
          else if not b
          then refused w₂
          else if c
          then refused w₃
          else if d
          then resolved p r m
          else refused w₄)
        ≡ true)
      ↔ ((a ≡ true) × (b ≡ true) × (c ≡ false) × (d ≡ true))
judged_lem a b c d w₁ w₂ w₃ w₄ p r m = (λ h. ground (arith, h), λ h. ground (arith, h))

gone_lem :
    (broker : Dict ℤ) (ls : List Leg)
    → All (λ (l : Leg). (held broker l.symbol ==ℤ pos 0) ≡ true) ls
    → is_empty (symbols_where (is_held broker) ls) ≡ true
gone_lem broker ls h = (none_where _ ls).1 (All-map _ _ ls (λ l e. ground (arith, e)) h)

unshared_lem :
    (rows : List Position) (ls : List Leg)
    → All (λ (l : Leg). claims l.symbol rows ≤ 1) ls
    → is_empty (symbols_where (is_claimed_twice rows) ls) ≡ true
unshared_lem rows ls h = (none_where _ ls).1 (All-map _ _ ls (λ l e. ground (arith, e)) h)

pub judge_exact :
    (isoformat : Instant → List ℕ) (rows : List Position) (broker : Dict ℤ) (fills : List Fill)
    (row : Position)
    → (is_resolved (judge isoformat rows broker fills row) ≡ true)
      ↔ IsExplained isoformat rows broker fills row
unfolding judge by_scan
judge_exact isoformat rows broker fills row =
    let ls = row.structure.legs in
    let judged =
      judged_lem (is_empty (symbols_where (is_held broker) ls))
        (is_empty (symbols_where (is_claimed_twice rows) ls)) (row.qty == 0)
        (is_empty (scan isoformat row fills ls).missing) _ _ _ _ _ _ _ in
    (
      λ h.
          let (gone, unshared, some_qty, done) = judged.0 h in
          record {
            gone = All-map _ _ ls (λ l e. ground (arith, e)) ((none_where _ ls).0 gone);
            unshared = All-map _ _ ls (λ l e. ground (arith, e)) ((none_where _ ls).0 unshared);
            some_qty = ground (arith, some_qty);
            closed_out = (scan_complete isoformat row fills ls).0 done;
          },
      λ x. judged.1 (
        gone_lem broker ls x.gone,
        unshared_lem rows ls x.unshared,
        ground (arith, x.some_qty),
        (scan_complete isoformat row fills ls).1 x.closed_out,
      ),
    )

qty_lem : (n : ℕ) → 1 ≤ n → (n == 0) ≡ false
qty_lem n h = ground arith

-- An explained position is resolved at the cost of its exit per contract.
pub judge_price :
    (isoformat : Instant → List ℕ) (rows : List Position) (broker : Dict ℤ) (fills : List Fill)
    (row : Position)
    → IsExplained isoformat rows broker fills row
    → let price = floor_div (exit_cost isoformat row fills row.structure.legs) (pos row.qty) in
      (realized : Decimal) × (matched : List Fill) × (judge isoformat rows broker fills row
        ≡ resolved price realized matched)
      × (realized_pnl row (some price) ≡ some realized)
unfolding judge by_scan realized_pnl
judge_price isoformat rows broker fills row x =
    let ls = row.structure.legs in
    (
      _,
      (scan isoformat row fills ls).matched,
      rw
          (
            gone_lem broker ls x.gone,
            unshared_lem rows ls x.unshared,
            qty_lem row.qty x.some_qty,
            (scan_complete isoformat row fills ls).1 x.closed_out,
            scan-cash isoformat row fills ls x.closed_out,
          )
          refl,
      refl,
    )
