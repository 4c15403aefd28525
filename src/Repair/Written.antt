-- ===== src/Repair/Written.antt =====
-- What `apply` of glassbox/repair.py writes.
use glassbox_ai_quant.Prelude.{
  ◌==◌, if◌then◌else◌, ==_iff, Bool-cases, is_some, keep_if, contains, ℕ, ◌≡◌, refl, ap, ◌∙◌, inl,
  inr, Bool, true, false, not, ◌&&◌, none, some, List, [], ◌∷◌, arith,
}
use glassbox_ai_quant.Prelude.Table.{update_rows, find_row-update_rows}
use glassbox_ai_quant.Prelude.Decimal.{Decimal}
use glassbox_ai_quant.Clock.{Instant}
use glassbox_ai_quant.Store.Rows.{closed, is_closed}
use glassbox_ai_quant.Store.{
  supervisor_flatten, Position, Tables, update_position, get_position, close_position,
  training_rows,
}
use glassbox_ai_quant.Execution.Lifecycle.Fates.{get_position-update}
use glassbox_ai_quant.Repair.{Verdict, refused, resolved, Resolution, write, is_resolved, apply}

-- The positions that the resolutions close.
abbrev pub written : List Resolution → List ℕ
written [] = []
written (r ∷ rs) =
    let rest = written rs in if is_resolved r.verdict then r.position_id ∷ rest else rest

-- The position is closed by the repair, and without a label.
pub record IsSquared (k : ℕ) (t : Tables) : Type 0 where
  pub row : Position
  pub found : get_position k t ≡ some row
  pub off : row.status ≡ closed
  pub by_repair : row.exit_barrier ≡ some supervisor_flatten
  pub unlabelled : row.meta_label ≡ none

trained : Position → Bool
trained r = is_closed r.status && is_some r.meta_label

flipped : (k j : ℕ) → (k == j) ≡ true → (j == k) ≡ true
flipped k j e = ground (arith, e)

unflipped : (k j : ℕ) → (k == j) ≡ false → (j == k) ≡ false
unflipped k j e = ground (arith, e)

kept_lem :
    (k : ℕ) (f : Position → Position) (rows : List Position)
    → ((r : Position) → trained (f r) ≡ false)
    → keep_if trained (update_rows (λ (r : Position). r.position_id) k f rows)
      ≡ keep_if (λ r. not (r.position_id == k)) (keep_if trained rows)
kept_lem k f [] h = refl
kept_lem k f (r ∷ rows) h = elim (Bool-cases (k == r.position_id)) [
  | inl e ↦ elim (Bool-cases (trained r)) [
    | inl t ↦ rw (e, h r, t, kept_lem k f rows h, flipped k r.position_id e) refl
    | inr t ↦ rw (e, h r, t) (kept_lem k f rows h)
  ]
  | inr e ↦ elim (Bool-cases (trained r)) [
    | inl t ↦ rw (e, t, kept_lem k f rows h, unflipped k r.position_id e) refl
    | inr t ↦ rw (e, t) (kept_lem k f rows h)
  ]
]

kept_twice :
    (k : ℕ) (ks : List ℕ) (rows : List Position)
    → keep_if
        (λ (r : Position). not (contains r.position_id ks))
        (keep_if (λ (r : Position). not (r.position_id == k)) rows)
      ≡ keep_if (λ (r : Position). not (contains r.position_id (k ∷ ks))) rows
kept_twice k ks [] = refl
kept_twice k ks (r ∷ rows) = elim (Bool-cases (r.position_id == k)) [
  | inl e ↦ rw e (kept_twice k ks rows)
  | inr e ↦ rw (e, kept_twice k ks rows) refl
]

keep_all : (rows : List Position) → rows ≡ keep_if (λ (r : Position). true) rows
keep_all [] = refl
keep_all (r ∷ rows) = rw (← keep_all rows) refl

training_after_write :
    (k : ℕ) (realized : Decimal) (at : Instant) (t : Tables)
    → training_rows (close_position k supervisor_flatten none realized at t)
      ≡ keep_if (λ (r : Position). not (r.position_id == k)) (training_rows t)
unfolding training_rows close_position update_position trained
training_after_write k realized at t = kept_lem k _ t.positions (λ r. refl)

training_step :
    (v : Verdict) (k : ℕ) (ks : List ℕ) (at : Instant) (t : Tables)
    → keep_if (λ (q : Position). not (contains q.position_id ks)) (training_rows (write k v at t))
      ≡ keep_if
          (λ (q : Position). not (contains q.position_id (if is_resolved v then k ∷ ks else ks)))
          (training_rows t)
training_step (refused why) k ks at t = refl
training_step (resolved p realized m) k ks at t =
    ap (keep_if (λ (q : Position). not (contains q.position_id ks)))
      (training_after_write k realized at t)
    ∙ kept_twice k ks (training_rows t)

-- The repair teaches nothing: the training rows are those that there were, less the positions that it
-- closed.
pub apply_trains_nothing :
    (rs : List Resolution) (at : Instant) (t : Tables)
    → training_rows (apply rs at t).0
      ≡ keep_if (λ (r : Position). not (contains r.position_id (written rs))) (training_rows t)
unfolding apply
apply_trains_nothing [] at t = keep_all (training_rows t)
apply_trains_nothing (r ∷ rs) at t =
    apply_trains_nothing rs at _ ∙ training_step r.verdict r.position_id (written rs) at t

IsSquared-now :
    (k : ℕ) (realized : Decimal) (at : Instant) (t : Tables) (row : Position)
    → get_position k t ≡ some row
    → IsSquared k (close_position k supervisor_flatten none realized at t)
unfolding close_position
IsSquared-now k realized at t row h = record {
  row = _;
  found = get_position-update k _ t row (λ p. refl) h;
  off = refl;
  by_repair = refl;
  unlabelled = refl;
}

get_position-elsewhere :
    (k j : ℕ) (f : Position → Position) (t : Tables)
    → ((p : Position) → (f p).position_id ≡ p.position_id)
    → (j == k) ≡ false
    → get_position j (update_position k f t) ≡ get_position j t
unfolding get_position update_position
get_position-elsewhere k j f t keeps e =
    find_row-update_rows (λ (p : Position). p.position_id) k j f keeps t.positions ∙ rw e refl

IsSquared-still :
    (j k : ℕ) (v : Verdict) (at : Instant) (t : Tables)
    → IsSquared j t
    → IsSquared j (write k v at t)
unfolding close_position
IsSquared-still j k (refused why) at t x = x
IsSquared-still j k (resolved p realized m) at t x = elim (Bool-cases (j == k)) [
  | inl e ↦
      rw (← (==_iff j k).0 e) (unfold close_position in IsSquared-now j realized at t x.row x.found)
  | inr e ↦ record {
    row = x.row;
    found = get_position-elsewhere k j _ t (λ q. refl) e ∙ x.found;
    off = x.off;
    by_repair = x.by_repair;
    unlabelled = x.unlabelled;
  }
]

IsSquared-after :
    (j : ℕ) (rs : List Resolution) (at : Instant) (t : Tables)
    → IsSquared j t
    → IsSquared j (apply rs at t).0
unfolding apply
IsSquared-after j [] at t x = x
IsSquared-after j (r ∷ rs) at t x =
    IsSquared-after j rs at _ (IsSquared-still j r.position_id r.verdict at t x)

squares_step :
    (v : Verdict) (i k : ℕ) (rs : List Resolution) (at : Instant) (t : Tables) (row : Position)
    → ((u : Tables)
        → get_position k u ≡ some row
        → contains k (written rs) ≡ true
        → IsSquared k (apply rs at u).0)
    → get_position k t ≡ some row
    → contains k (if is_resolved v then i ∷ written rs else written rs) ≡ true
    → IsSquared k (apply rs at (write i v at t)).0
squares_step (refused why) i k rs at t row ih h c = ih t h c
squares_step (resolved p realized m) i k rs at t row ih h c = elim (Bool-cases (k == i)) [
  | inl e ↦
      IsSquared-after k rs at _ (rw (← (==_iff k i).0 e) (IsSquared-now k realized at t row h))
  | inr e ↦
      ih _ (unfold close_position in get_position-elsewhere i k _ t (λ q. refl) e ∙ h) (rw e at c)
]

-- Every position that `apply` is told to close is closed afterwards, by the repair and without a
-- label, if the store has it.
pub apply_squares :
    (rs : List Resolution) (k : ℕ) (at : Instant) (t : Tables) (row : Position)
    → get_position k t ≡ some row
    → contains k (written rs) ≡ true
    → IsSquared k (apply rs at t).0
unfolding apply
apply_squares [] k at t row h c = absurd (ground (arith, c))
apply_squares (r ∷ rs) k at t row h c =
    squares_step r.verdict r.position_id k rs at t row (λ u. apply_squares rs k at u row) h c
