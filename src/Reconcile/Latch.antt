-- ===== src/Reconcile/Latch.antt =====
-- The halts that `enforce` and `check_assignments` of glassbox/reconcile.py latch and clear.
use glassbox_ai_quant.Prelude.{
  ◌==◌, ==_iff, Bool-cases, or-true, keep_if, All, contains, ℕ, ◌≡◌, refl, sym, ap, ◌≢◌, ◌↔◌, ◌⊎◌,
  inl, inr, Bool, true, false, not, ◌||◌, none, some, List, [], ◌∷◌, ◌++◌, map, arith,
}
use glassbox_ai_quant.SystemState.{from_reconcile, SystemState, is_halted}
use glassbox_ai_quant.Reconcile.{
  Books, BrokerPosition, sorted_set, reconcile, latch, enforce, Activity, unseen, assignments_of,
  check_assignments,
}
use glassbox_ai_quant.Reconcile.Bands.{contains-sorted_set, contains-append}

-- A standing halt that `enforce` did not latch.
pub record IsForeign (s : SystemState) : Type 0 where
  pub halted : is_halted s ≡ true
  pub elsewhere : s.halt_source ≢ some from_reconcile

pass_exact :
    (in_sync : Bool) (s : SystemState)
    → (is_halted (latch in_sync s) ≡ true) ↔ ((in_sync ≡ false) ⊎ IsForeign s)
unfolding latch
pass_exact true s = (
  λ h. inr (record { halted = ground (arith, h); elsewhere = λ e. ground (arith, h, e) }),
  λ h. ground arith,
)
pass_exact false s = (λ h. inl refl, λ h. refl)

foreign_pass : (s : SystemState) → IsForeign s → latch true s ≡ s
unfolding latch
foreign_pass s f = ground (arith, f.halted, f.elsewhere)

-- After `enforce` the system is halted exactly if the books and the broker disagree or a halt
-- stood that no divergence had latched.
pub enforce_exact :
    (b : Books) (ps : List BrokerPosition) (s : SystemState)
    → (is_halted (enforce b ps s).0 ≡ true) ↔ (((reconcile b ps).ok ≡ false) ⊎ IsForeign s)
unfolding enforce
enforce_exact b ps s = pass_exact (reconcile b ps).ok s

-- `enforce` once for each pair of books and broker's positions.
unfoldable pub enforce_all : List (Books × List BrokerPosition) → SystemState → SystemState
enforce_all [] s = s
enforce_all ((b, ps) ∷ rest) s = enforce_all rest (enforce b ps s).0

foreign_enforce :
    (b : Books) (ps : List BrokerPosition) (s : SystemState)
    → IsForeign s
    → (reconcile b ps).ok ≡ true
    → (enforce b ps s).0 ≡ s
unfolding enforce
foreign_enforce b ps s f h = rw h (foreign_pass s f)

-- Any number of passes of `enforce` over books that agree with the broker leave a state with a halt
-- from elsewhere as it is.
pub foreign_halt_stands :
    (s : SystemState) (l : List (Books × List BrokerPosition))
    → IsForeign s
    → All (λ p. (reconcile p.0 p.1).ok ≡ true) l
    → enforce_all l s ≡ s
unfolding enforce_all
foreign_halt_stands s [] f h = refl
foreign_halt_stands s ((b, ps) ∷ l) f h =
    rw (foreign_enforce b ps s f h.0) (foreign_halt_stands s l f h.1)

-- A divergence takes over a standing halt, whoever latched it: after a pass of `enforce` over books that
-- disagree with the broker and one over books that agree, there is no halt and no source of one.
pub divergence_takes_over :
    (b b' : Books) (ps ps' : List BrokerPosition) (s : SystemState)
    → (reconcile b ps).ok ≡ false
    → (reconcile b' ps').ok ≡ true
    → let s' = (enforce b' ps' (enforce b ps s).0).0 in
      (is_halted s' ≡ false) × (s'.halt_source ≡ none)
unfolding enforce latch
divergence_takes_over b b' ps ps' s h h' = rw (h, h') (refl, refl)

keep_if-none :
    (seen : List ℕ) (zs : List Activity)
    → ((k : ℕ) → contains k (map (λ a. a.key) zs) ≡ true → contains k seen ≡ true)
    → keep_if (λ a. not (contains a.key seen)) zs ≡ []
keep_if-none seen [] h = refl
keep_if-none seen (z ∷ zs) h =
    rw (h z.key (ground arith)) (keep_if-none seen zs (λ k e. h k (ground arith)))

kept_or_seen :
    (k : ℕ) (seen : List ℕ) (zs : List Activity)
    → contains k (map (λ a. a.key) zs) ≡ true
    → (contains k (map (λ a. a.key) (keep_if (λ a. not (contains a.key seen)) zs))
        || contains k seen)
      ≡ true
kept_or_seen k seen [] h = absurd (ground arith)
kept_or_seen k seen (z ∷ zs) h = elim (Bool-cases (contains k seen)) [
  | inl e ↦ rw e (or-true _)
  | inr e ↦ elim (Bool-cases (k == z.key)) [
    | inl same ↦
        rw (sym (ap (λ i. contains i seen) ((==_iff k z.key).0 same)), e) (ground (arith, same))
    | inr other ↦ ground (arith, kept_or_seen k seen zs, e, other)
  ]
]

none_left :
    (seen : List ℕ) (zs news : List Activity)
    → keep_if (λ n. not (contains n.key seen)) zs ≡ news
    → keep_if (λ a. not (contains a.key (sorted_set (map (λ n. n.key) news ++ seen)))) zs ≡ []
none_left seen zs news e = keep_if-none _ zs (λ k h.
    rw
      (
        contains-sorted_set k (map (λ n. n.key) news ++ seen),
        contains-append k (map (λ n. n.key) news) seen,
        sym e,
      )
      (kept_or_seen k seen zs h))

once_lem :
    (acts : List Activity) (s : SystemState) (news : List Activity)
    → unseen s acts ≡ news
    → check_assignments acts (assignments_of news s).0 ≡ ((assignments_of news s).0, [])
unfolding check_assignments
once_lem acts s [] e = rw e refl
once_lem acts s (a ∷ news) e =
    rw (none_left s.seen_assignments (keep_if (λ a. a.is_assignment) acts) (a ∷ news) e) refl

-- A second check of the same activities changes nothing and reports nothing.
pub check_assignments_once :
    (acts : List Activity) (s : SystemState)
    → check_assignments acts (check_assignments acts s).0 ≡ ((check_assignments acts s).0, [])
unfolding check_assignments
check_assignments_once acts s = once_lem acts s (unseen s acts) refl
