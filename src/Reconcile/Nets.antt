-- ===== src/Reconcile/Nets.antt =====
-- What the dicts of glassbox/reconcile.py hold: for each symbol the sum over the rows, and what the
-- comparison means for these sums.
use glassbox_ai_quant.Prelude.{
  ◌==◌, if◌then◌else◌, ==_iff, Bool-cases, keep_if, contains, Dict, lookup, insert, lookup-insert,
  ℕ, ◌≡◌, refl, sym, ap, ◌∙◌, ◌↔◌, inl, inr, Bool, true, false, not, ◌||◌, Option, some, List, [],
  ◌∷◌, arith,
}
use glassbox_ai_quant.Prelude.Int.{ℤ, pos, ◌+ℤ◌, ◌≤ℤ◌, ◌==ℤ◌, eq_of_parts}
use glassbox_ai_quant.Store.Rows.{}
use glassbox_ai_quant.Reconcile.{
  LegRow, PositionRow, Books, BrokerPosition, or_zero, held, tally, signed, tally_legs, tally_rows,
  leg_quantities, tally_broker, broker_leg_quantities, arriving_rows, settled_rows, leaving_rows,
  detail, band_low, band_high, keys, reconcile,
}
use glassbox_ai_quant.Reconcile.Bands.{InBand, unheld, InBand-exact}

-- The sums of one symbol, from a start.
module _ (s : ℕ) where
  unfoldable pub net_legs : ℕ → List LegRow → ℤ → ℤ
  net_legs qty [] start = start
  net_legs qty (l ∷ ls) start =
      net_legs qty ls (if s == l.symbol then start +ℤ signed qty l else start)

  unfoldable pub net_rows : List PositionRow → ℤ → ℤ
  net_rows [] start = start
  net_rows (r ∷ rs) start = net_rows rs (net_legs r.qty r.legs start)

  unfoldable pub net_broker : List BrokerPosition → ℤ → ℤ
  net_broker [] start = start
  net_broker (p ∷ ps) start = net_broker ps (if s == p.symbol then start +ℤ p.qty else start)

-- No key twice.
abbrev Distinct : Dict ℤ → Type 0
Distinct [] = Unit
Distinct (e ∷ d) = (contains e.0 (keys d) ≡ false) × Distinct d

contains-insert :
    (j k : ℕ) (v : ℤ) (d : Dict ℤ)
    → contains j (keys (insert k v d)) ≡ (j == k || contains j (keys d))
contains-insert j k v [] = refl
contains-insert j k v (e ∷ d) = ground (arith, contains-insert j k v d)

insert-Distinct : (k : ℕ) (v : ℤ) (d : Dict ℤ) → Distinct d → Distinct (insert k v d)
insert-Distinct k v [] h = (refl, tt)
insert-Distinct k v (e ∷ d) h = elim (Bool-cases (k == e.0)) [
  | inl same ↦ rw same (rw ((==_iff k e.0).0 same) h.0, h.1)
  | inr other ↦
      rw other
        (rw (contains-insert e.0 k v d) (ground (arith, h.0, other)), insert-Distinct k v d h.1)
]

or_zero_if :
    (b : Bool) (v : ℤ) (o : Option ℤ)
    → or_zero (if b then some v else o) ≡ (if b then v else or_zero o)
or_zero_if true v o = refl
or_zero_if false v o = refl

-- A choice between values that agree where they are chosen between.
pick : (b : Bool) (x y : ℤ) → (b ≡ true → x ≡ y) → y ≡ (if b then x else y)
pick true x y h = sym (h refl)
pick false x y h = refl

pick_left :
    (b : Bool) (x x' y : ℤ) → (b ≡ true → x ≡ x') → (if b then x else y) ≡ (if b then x' else y)
pick_left true x x' y h = h refl
pick_left false x x' y h = refl

held-tally :
    (s k : ℕ) (q : ℤ) (d : Dict ℤ)
    → held (tally k q d) s ≡ (if s == k then held d s +ℤ q else held d s)
held-tally s k q d =
    ap or_zero (lookup-insert k s (held d k +ℤ q) d)
    ∙ (or_zero_if (s == k) (held d k +ℤ q) (lookup s d)
        ∙ pick_left (s == k) (held d k +ℤ q) (held d s +ℤ q) (held d s)
            (λ e. ap (λ i. held d i +ℤ q) (sym ((==_iff s k).0 e))))

held-cons : (s k : ℕ) (q : ℤ) (d : Dict ℤ) → held ((k, q) ∷ d) s ≡ (if s == k then q else held d s)
held-cons s k q d = or_zero_if (s == k) q (lookup s d)

held-keep_if :
    (s : ℕ) (d : Dict ℤ) → Distinct d → held (keep_if (λ e. not (e.1 ==ℤ pos 0)) d) s ≡ held d s
held-keep_if s [] h = refl
held-keep_if s ((k, q) ∷ d) h = elim (Bool-cases (q ==ℤ pos 0)) [
  | inr kept ↦ rw kept (
      held-cons s k q (keep_if (λ e. not (e.1 ==ℤ pos 0)) d)
      ∙ (ap (λ x. if s == k then q else x) (held-keep_if s d h.1) ∙ sym (held-cons s k q d)))
  | inl gone ↦ rw gone (
      held-keep_if s d h.1
      ∙ (pick (s == k) q (held d s) (λ e.
            eq_of_parts q (pos 0) (ground (arith, gone))
            ∙ sym (unheld s d (ap (λ i. contains i (keys d)) ((==_iff s k).0 e) ∙ h.0)))
          ∙ sym (held-cons s k q d)))
]

tally_legs-Distinct :
    (qty : ℕ) (ls : List LegRow) (d : Dict ℤ) → Distinct d → Distinct (tally_legs qty ls d)
unfolding tally_legs
tally_legs-Distinct qty [] d h = h
tally_legs-Distinct qty (l ∷ ls) d h = tally_legs-Distinct qty ls _ (insert-Distinct l.symbol _ d h)

tally_rows-Distinct : (rs : List PositionRow) (d : Dict ℤ) → Distinct d → Distinct (tally_rows rs d)
unfolding tally_rows
tally_rows-Distinct [] d h = h
tally_rows-Distinct (r ∷ rs) d h = tally_rows-Distinct rs _ (tally_legs-Distinct r.qty r.legs d h)

tally_legs_lem :
    (s qty : ℕ) (ls : List LegRow) (d : Dict ℤ)
    → held (tally_legs qty ls d) s ≡ net_legs s qty ls (held d s)
unfolding tally_legs net_legs
tally_legs_lem s qty [] d = refl
tally_legs_lem s qty (l ∷ ls) d =
    tally_legs_lem s qty ls (tally l.symbol (signed qty l) d)
    ∙ ap (net_legs s qty ls) (held-tally s l.symbol (signed qty l) d)

tally_rows_lem :
    (s : ℕ) (rs : List PositionRow) (d : Dict ℤ)
    → held (tally_rows rs d) s ≡ net_rows s rs (held d s)
unfolding tally_rows net_rows
tally_rows_lem s [] d = refl
tally_rows_lem s (r ∷ rs) d =
    tally_rows_lem s rs (tally_legs r.qty r.legs d)
    ∙ ap (net_rows s rs) (tally_legs_lem s r.qty r.legs d)

leg_quantities_lem :
    (s : ℕ) (rs : List PositionRow) → held (leg_quantities rs) s ≡ net_rows s rs (pos 0)
unfolding leg_quantities
leg_quantities_lem s rs =
    held-keep_if s (tally_rows rs []) (tally_rows-Distinct rs [] tt) ∙ tally_rows_lem s rs []

add_zero : (a q : ℤ) → (q ==ℤ pos 0) ≡ true → a +ℤ q ≡ a
unfolding ◌+ℤ◌
add_zero a q h = eq_of_parts (a +ℤ q) a (ground arith)

step_broker :
    (s : ℕ) (p : BrokerPosition) (d : Dict ℤ)
    → held (if p.qty ==ℤ pos 0 then d else tally p.symbol p.qty d) s
      ≡ (if s == p.symbol then held d s +ℤ p.qty else held d s)
step_broker s p d = elim (Bool-cases (p.qty ==ℤ pos 0)) [
  | inr e ↦ rw e (held-tally s p.symbol p.qty d)
  | inl e ↦
      rw e (pick (s == p.symbol) (held d s +ℤ p.qty) (held d s) (λ i. add_zero (held d s) p.qty e))
]

tally_broker_lem :
    (s : ℕ) (ps : List BrokerPosition) (d : Dict ℤ)
    → held (tally_broker ps d) s ≡ net_broker s ps (held d s)
unfolding tally_broker net_broker
tally_broker_lem s [] d = refl
tally_broker_lem s (p ∷ ps) d =
    tally_broker_lem s ps (if p.qty ==ℤ pos 0 then d else tally p.symbol p.qty d)
    ∙ ap (net_broker s ps) (step_broker s p d)

broker_lem :
    (s : ℕ) (ps : List BrokerPosition) → held (broker_leg_quantities ps) s ≡ net_broker s ps (pos 0)
unfolding broker_leg_quantities
broker_lem s ps = tally_broker_lem s ps []

-- The broker's sum of a symbol is in the band of the sums over the settled, arriving and leaving rows.
abbrev pub Agrees : Books → List BrokerPosition → ℕ → Type 0
Agrees b ps s =
    let base = net_rows s (settled_rows b) (pos 0) in
    let a = net_rows s (arriving_rows b) (pos 0) in
    let l = net_rows s (leaving_rows b) (pos 0) in
    (band_low base a l ≤ℤ net_broker s ps (pos 0)) × (net_broker s ps (pos 0) ≤ℤ band_high base a l)

agree_lem :
    (b : Books) (ps : List BrokerPosition) (s : ℕ)
    → (held (detail b ps).local s ≡ net_rows s (settled_rows b) (pos 0))
      × (held (detail b ps).arriving s ≡ net_rows s (arriving_rows b) (pos 0))
      × (held (detail b ps).leaving s ≡ net_rows s (leaving_rows b) (pos 0))
      × (held (detail b ps).broker s ≡ net_broker s ps (pos 0))
unfolding detail
agree_lem b ps s = (
  leg_quantities_lem s (settled_rows b),
  leg_quantities_lem s (arriving_rows b),
  leg_quantities_lem s (leaving_rows b),
  broker_lem s ps,
)

InBand_lem : (b : Books) (ps : List BrokerPosition) (s : ℕ) → InBand (detail b ps) s ↔ Agrees b ps s
InBand_lem b ps s =
    let (base, a, l, q) = agree_lem b ps s in
    (
      λ i. rw (sym base, sym a, sym l, sym q) (i.above, i.below),
      λ h.
          let (low, high) = h in
          record { above = rw (base, a, l, q) low; below = rw (base, a, l, q) high },
    )

-- `reconcile` reports ok exactly when, for every symbol, named anywhere or not, the sum of the broker's
-- counts is in the band that is spanned by the sums of signed contracts over the settled rows, the
-- rows whose entry order works and the rows whose close works.
pub ok_exact :
    (b : Books) (ps : List BrokerPosition)
    → ((reconcile b ps).ok ≡ true) ↔ ((s : ℕ) → Agrees b ps s)
ok_exact b ps =
    let (there, back) = InBand-exact b ps in
    (λ h s. (InBand_lem b ps s).0 (there h s), λ h. back (λ s. (InBand_lem b ps s).1 (h s)))
