-- ===== src/Execution/Lifecycle/Steps.antt =====
-- The steps that a pass of glassbox/execution/lifecycle.py may take on the store, and what any number
-- of them keep.
use glassbox_ai_quant.Prelude.{
  ◌==◌, ==_iff, Bool-cases, Option-cases, Dict, lookup, ℕ, ◌≤◌, ◌≡◌, refl, sym, ap, ◌∙◌, inl, inr,
  Bool, true, false, Option, none, some, List, arith,
}
use glassbox_ai_quant.Prelude.Table.{
  rows_of, find_row-update_rows, find_row-append, rows_of-update_rows,
}
use glassbox_ai_quant.SystemState.{is_halted}
use glassbox_ai_quant.Store.Rows.{Intent, to_open, to_close}
use glassbox_ai_quant.Store.{
  Order, Position, ArmRow, Tables, record_order, update_order, get_order, same_intent,
  update_position, counter,
}

-- What an update of an order leaves alone.
pub record IsUpdate (f : Order → Order) : Type 0 where
  pub id : (o : Order) → (f o).client_order_id ≡ o.client_order_id
  pub intent : (o : Order) → (f o).intent ≡ o.intent

-- What a pass may do: which positions it may touch, and how many rungs an entry's ladder has.
pub record Permit : Type 0 where
  pub allowed : ℕ → Bool
  pub rungs : ℕ

-- Whether no ladder has counted more rungs than it has.
abbrev pub IsBounded : ℕ → Dict ℕ → Type 0
IsBounded n d = (k : ℕ) → counter 0 (lookup k d) ≤ n

-- A step from `t` to `u`, where only the positions that the permit names may change: an order moves on, a
-- position does, an order is recorded, which opens nothing under a halt, an attempt is counted within the ladder, or
-- the bandit learns.
pub data Step (permit : Permit) (t u : Tables) : Type 0 where
  order_moves : (c : ℕ) (f : Order → Order) → IsUpdate f → u ≡ update_order c f t → Step permit t u
  position_moves :
      (k : ℕ) (f : Position → Position)
      → permit.allowed k ≡ true
      → ((r : Position) → (f r).position_id ≡ r.position_id)
      → u ≡ update_position k f t
      → Step permit t u
  order_recorded :
      (o : Order)
      → (o.intent ≡ to_open → is_halted t.system ≡ false)
      → u ≡ record_order o t
      → Step permit t u
  attempt_counted :
      (e c : Dict ℕ)
      → (IsBounded permit.rungs t.entry_attempts → IsBounded permit.rungs e)
      → u ≡ record t { entry_attempts = e; close_attempts = c }
      → Step permit t u
  bandit_learned : (a : List ArmRow) → u ≡ record t { arms = a } → Step permit t u

pub data Reach (permit : Permit) (t : Tables) : Tables → Type 0 where
  here : Reach permit t t
  next : {u v : Tables} → Reach permit t u → Step permit u v → Reach permit t v

module _ {permit : Permit} where
  pub Reach-trans : {t u v : Tables} → Reach permit t u → Reach permit u v → Reach permit t v
  Reach-trans r here = r
  Reach-trans r (next s st) = next (Reach-trans r s) st

  pub Reach-eq : {t u : Tables} → u ≡ t → Reach permit t u
  Reach-eq e = rw e here

  pub Reach-Step : {t u : Tables} → Step permit t u → Reach permit t u
  Reach-Step st = next here st

  Step-system : {t u : Tables} → Step permit t u → u.system ≡ t.system
  unfolding update_order update_position record_order
  Step-system (order_moves c f k e) = rw e refl
  Step-system (position_moves c f h k e) = rw e refl
  Step-system (order_recorded o h e) = rw e refl
  Step-system (attempt_counted a b _ e) = rw e refl
  Step-system (bandit_learned a e) = rw e refl

  -- A pass leaves the halt and all other rows of the supervisor as they are.
  pub Reach-system : {t u : Tables} → Reach permit t u → u.system ≡ t.system
  Reach-system here = refl
  Reach-system (next r st) = Step-system st ∙ Reach-system r

abbrev pub position_rows : ℕ → Tables → List Position
position_rows k t = rows_of (λ (r : Position). r.position_id) k t.positions

other :
    (permit : Permit) (j k : ℕ)
    → permit.allowed j ≡ false
    → permit.allowed k ≡ true
    → (j == k) ≡ false
other permit j k untouched h = elim (Bool-cases (j == k)) [
  | inl e ↦ absurd (ground (arith, ap permit.allowed ((==_iff j k).0 e), h, untouched))
  | inr e ↦ e
]

module _ {permit : Permit} (j : ℕ) (untouched : permit.allowed j ≡ false) where
  Step-elsewhere : {t u : Tables} → Step permit t u → position_rows j u ≡ position_rows j t
  unfolding update_order update_position record_order
  Step-elsewhere (order_moves c f k e) = rw e refl
  Step-elsewhere {t} (position_moves k f h keeps e) = rw e (
      rows_of-update_rows (λ (r : Position). r.position_id) k j f keeps
        (other permit j k untouched h) t.positions)
  Step-elsewhere (order_recorded o h e) = rw e refl
  Step-elsewhere (attempt_counted a b _ e) = rw e refl
  Step-elsewhere (bandit_learned a e) = rw e refl

  -- A position that may not be touched keeps its rows.
  pub Reach-elsewhere : {t u : Tables} → Reach permit t u → position_rows j u ≡ position_rows j t
  Reach-elsewhere here = refl
  Reach-elsewhere (next r st) = Step-elsewhere st ∙ Reach-elsewhere r

abbrev pub opens : Option Order → Bool
opens none = false
opens (some o) = same_intent to_open o.intent

-- Whether the store has an opening order under this id.
abbrev pub has_entry : ℕ → Tables → Bool
has_entry c t = opens (get_order c t)

has_entry-update :
    (c j : ℕ) (f : Order → Order) (t : Tables)
    → IsUpdate f
    → has_entry j (update_order c f t) ≡ has_entry j t
unfolding get_order update_order
has_entry-update c j f t u =
    rw (find_row-update_rows (λ (r : Order). r.client_order_id) c j f u.id t.orders)
      (elim (Bool-cases (j == c)) [
        | inl e ↦ rw e (elim (Option-cases (get_order j t)) [
          | inl n ↦ rw n refl
          | inr (o, n) ↦ rw (n, u.intent o) refl
        ])
        | inr e ↦ rw e refl
      ])

has_entry-record :
    (o : Order) (j : ℕ) (t : Tables)
    → (same_intent to_open o.intent) ≡ false
    → has_entry j (record_order o t) ≡ true
    → has_entry j t ≡ true
unfolding get_order record_order
has_entry-record o j t h e =
    ground (arith, find_row-append (λ (r : Order). r.client_order_id) j o t.orders, h, e)

not_opening :
    (i : Intent) (halted : Bool)
    → halted ≡ true
    → (i ≡ to_open → halted ≡ false)
    → same_intent to_open i ≡ false
not_opening to_open halted h k = absurd (ground (arith, h, k refl))
not_opening to_close halted h k = refl

module _ {permit : Permit} (c : ℕ) where
  Step-has_entry :
      {t u : Tables}
      → is_halted t.system ≡ true
      → Step permit t u
      → has_entry c u ≡ true
      → has_entry c t ≡ true
  unfolding update_position get_order
  Step-has_entry {t} h (order_moves d f k e) m =
      sym (has_entry-update d c f t k) ∙ sym (ap (has_entry c) e) ∙ m
  Step-has_entry h (position_moves k f _ keeps e) m = sym (ap (has_entry c) e) ∙ m
  Step-has_entry {t} h (order_recorded o k e) m =
      has_entry-record o c t (not_opening o.intent (is_halted t.system) h k)
        (sym (ap (has_entry c) e) ∙ m)
  Step-has_entry h (attempt_counted a b _ e) m = sym (ap (has_entry c) e) ∙ m
  Step-has_entry h (bandit_learned a e) m = sym (ap (has_entry c) e) ∙ m

  -- Under a halt no opening order is recorded.
  pub Reach-has_entry :
      {t u : Tables}
      → is_halted t.system ≡ true
      → Reach permit t u
      → has_entry c u ≡ true
      → has_entry c t ≡ true
  Reach-has_entry h here m = m
  Reach-has_entry h (next r st) m =
      Reach-has_entry h r (Step-has_entry (rw (Reach-system r) h) st m)

module _ {permit : Permit} where
  Step-IsBounded :
      {t u : Tables}
      → IsBounded permit.rungs t.entry_attempts
      → Step permit t u
      → IsBounded permit.rungs u.entry_attempts
  unfolding update_order update_position record_order
  Step-IsBounded h (order_moves c f k e) = rw e h
  Step-IsBounded h (position_moves c f a k e) = rw e h
  Step-IsBounded h (order_recorded o k e) = rw e h
  Step-IsBounded h (attempt_counted a b k e) = rw e (k h)
  Step-IsBounded h (bandit_learned a e) = rw e h

  -- A ladder within its rungs stays within them.
  pub Reach-IsBounded :
      {t u : Tables}
      → IsBounded permit.rungs t.entry_attempts
      → Reach permit t u
      → IsBounded permit.rungs u.entry_attempts
  Reach-IsBounded h here = h
  Reach-IsBounded h (next r st) = Step-IsBounded (Reach-IsBounded h r) st
