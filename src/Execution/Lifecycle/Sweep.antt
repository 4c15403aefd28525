-- ===== src/Execution/Lifecycle/Sweep.antt =====
-- The sweep of glassbox/execution/lifecycle.py, and what holds of every pass of `sync`.
use glassbox_ai_quant.Prelude.{
  ◌==◌, ==_iff, Bool-cases, is_some, and-true, or-true, any, keep_if, All, contains, ℕ, ◌≡◌, refl,
  sym, ap, ◌∙◌, inl, inr, Bool, true, false, ◌&&◌, ◌||◌, Option, none, some, List, [], ◌∷◌, arith,
}
use glassbox_ai_quant.Prelude.Table.{rows_of}
use glassbox_ai_quant.Prelude.Int.{ltb_ℤ}
use glassbox_ai_quant.Clock.{Instant}
use glassbox_ai_quant.Config.{Config}
use glassbox_ai_quant.SystemState.{is_halted}
use glassbox_ai_quant.Store.Rows.{
  Intent, OrderStatus, pending, submitted, filled, canceled, expired,
}
use glassbox_ai_quant.Store.{
  Order, Position, Tables, orders_in_flight, same_intent, newer, newest, latest_order_for,
  open_positions,
}
use glassbox_ai_quant.Execution.Ids.{IdText}
use glassbox_ai_quant.Execution.Router.{Broker, Session}
use glassbox_ai_quant.Execution.Lifecycle.{
  awaited, resolve_as, resolve_latest, sweep_for, sweep_row, sweep_rows, sweep_orphans, sync,
}
use glassbox_ai_quant.Execution.Lifecycle.Steps.{
  Permit, IsBounded, Reach, here, Reach-trans, Reach-system, position_rows, Reach-elsewhere,
  has_entry, Reach-has_entry, Reach-IsBounded,
}
use glassbox_ai_quant.Execution.Lifecycle.Passes.{if_steps, on_dead_steps, on_fill_steps}
use glassbox_ai_quant.Execution.Lifecycle.Sync.{
  is_transitional, may_touch, if_pair_steps, permit_of, handle_all_steps,
}

newer_keeps :
    (p : Order → Bool) (r o : Order) (m : Option Order)
    → p r ≡ true
    → ((n : Order) → m ≡ some n → p n ≡ true)
    → newer r m ≡ some o
    → p o ≡ true
newer_keeps p r o none h k e = ground (arith, e, h)
newer_keeps p r o (some n) h k e = elim (Bool-cases (ltb_ℤ n.created_at r.created_at)) [
  | inl c ↦ ground (arith, (rw c at e), h)
  | inr c ↦ k o (rw c at e)
]

-- What the newest of the kept orders passes.
pub newest-keep_if :
    (p : Order → Bool) (rows : List Order) (o : Order)
    → newest (keep_if p rows) ≡ some o
    → p o ≡ true
unfolding newest
newest-keep_if p [] o e = absurd (ground (arith, e))
newest-keep_if p (r ∷ rows) o e = elim (Bool-cases (p r)) [
  | inr h ↦ newest-keep_if p rows o (rw h at e)
  | inl h ↦
      newer_keeps p r o (newest (keep_if p rows)) h (λ n f. newest-keep_if p rows n f) (rw h at e)
]

module _ {A : Type 0} (key : A → ℕ) (p : A → Bool) where
  kept_more :
      (k : ℕ) (r : A) (rows : List A)
      → any p (rows_of key k rows) ≡ true
      → any p (rows_of key k (r ∷ rows)) ≡ true
  kept_more k r rows e = elim (Bool-cases (k == key r)) [
    | inl c ↦ rw (c, e) (or-true _)
    | inr c ↦ rw c e
  ]

  -- A row that passes is among the rows of its key.
  any-rows_of :
      (rows all_rows : List A)
      → ((k : ℕ) → any p (rows_of key k rows) ≡ true → any p (rows_of key k all_rows) ≡ true)
      → All (λ r. p r ≡ true → any p (rows_of key (key r) all_rows) ≡ true) rows
  any-rows_of [] all_rows h = tt
  any-rows_of (r ∷ rows) all_rows h = (
    λ e. h (key r) (ground (arith, e)),
    any-rows_of rows all_rows (λ k e. h k (kept_more k r rows e)),
  )

All-keep_if :
    {A : Type 0} (P : A → Type 0) (q : A → Bool) (rows : List A)
    → All P rows
    → All P (keep_if q rows)
All-keep_if P q [] h = tt
All-keep_if P q (r ∷ rows) h = elim (Bool-cases (q r)) [
  | inl e ↦ rw e (h.0, All-keep_if P q rows h.1)
  | inr e ↦ rw e (All-keep_if P q rows h.1)
]

All-weaken :
    {A : Type 0} (P Q : A → Type 0) (rows : List A)
    → ((r : A) → P r → Q r)
    → All P rows
    → All Q rows
All-weaken P Q [] f h = tt
All-weaken P Q (r ∷ rows) f h = (f r h.0, All-weaken P Q rows f h.1)

any_self :
    (os all_orders : List Order)
    → ((k : ℕ)
        → any (λ (o : Order). k == o.position_id) os ≡ true
        → any (λ (o : Order). k == o.position_id) all_orders ≡ true)
    → All (λ (o : Order). any (λ (i : Order). o.position_id == i.position_id) all_orders ≡ true) os
any_self [] all_orders h = tt
any_self (o ∷ os) all_orders h =
    (h o.position_id (ground arith), any_self os all_orders (λ k e. h k (rw e (or-true _))))

latest_touched :
    (permit : Permit) (k : ℕ) (i : Intent) (t : Tables) (o : Order)
    → permit.allowed k ≡ true
    → latest_order_for k i t ≡ some o
    → permit.allowed o.position_id ≡ true
unfolding latest_order_for
latest_touched permit k i t o h e =
    let kept =
      newest-keep_if (λ (r : Order). k == r.position_id && same_intent i r.intent) t.orders o e in
    sym (ap permit.allowed ((==_iff k o.position_id).0 ((and-true _ _ kept).0))) ∙ h

module _ {W : Type 0} (broker : Broker W) (digest : IdText → ℕ) (cfg : Config) (learns : Bool)
    {permit : Permit} where
  resolve_as_steps :
      (st : OrderStatus) (now : Instant) (o : Order) (s : Session W)
      → permit.allowed o.position_id ≡ true
      → Reach permit s.tables (resolve_as broker digest cfg learns st now o s).tables
  resolve_as_steps filled now o s h = on_fill_steps broker learns o o.filled_price now s h
  resolve_as_steps pending now o s h = here
  resolve_as_steps submitted now o s h = here
  resolve_as_steps canceled now o s h = on_dead_steps o canceled s h
  resolve_as_steps OrderStatus.rejected now o s h = on_dead_steps o OrderStatus.rejected s h
  resolve_as_steps expired now o s h = on_dead_steps o expired s h

  resolve_latest_steps :
      (now : Instant) (o : Option Order) (s : Session W)
      → ((l : Order) → o ≡ some l → permit.allowed l.position_id ≡ true)
      → Reach permit s.tables (resolve_latest broker digest cfg learns now o s).tables
  resolve_latest_steps now none s h = here
  resolve_latest_steps now (some o) s h = resolve_as_steps o.status now o s (h o refl)

  sweep_for_steps :
      (now : Instant) (row : Position) (i : Option Intent) (s : Session W)
      → (is_some i ≡ true → permit.allowed row.position_id ≡ true)
      → Reach permit s.tables (sweep_for broker digest cfg learns now row i s).tables
  sweep_for_steps now row none s h = here
  sweep_for_steps now row (some i) s h =
      resolve_latest_steps now _ s
        (λ l e. latest_touched permit row.position_id i s.tables l (h refl) e)

  sweep_rows_steps :
      (now : Instant) (ks : List ℕ) (rows : List Position) (s : Session W)
      → All (λ (r : Position). is_transitional r ≡ true → permit.allowed r.position_id ≡ true) rows
      → Reach permit s.tables (sweep_rows broker digest cfg learns now ks rows s).tables
  unfolding sweep_rows sweep_row
  sweep_rows_steps now ks [] s h = here
  sweep_rows_steps now ks (row ∷ rows) s h =
      Reach-trans
        (if_steps (contains row.position_id ks) s.tables s _ here
          (sweep_for_steps now row (awaited row.status) s h.0))
        (sweep_rows_steps now ks rows _ h.1)

or_false : (a b : Bool) → (a || b) ≡ false → b ≡ false
or_false true b h = absurd (ground (arith, h))
or_false false b h = h

untouched_lem :
    (cfg : Config) (t u : Tables) (k : ℕ)
    → Reach (permit_of cfg t) t u
    → may_touch t k ≡ false
    → any is_transitional (position_rows k u) ≡ true
    → may_touch t k ≡ true
unfolding may_touch
untouched_lem cfg t u k r h e =
    let before = or_false _ (any is_transitional (position_rows k t)) h in
    let same = ap (any is_transitional) (Reach-elsewhere k h r) in
    absurd (ground (arith, e, same, before))

-- What is transitional after steps that permit nothing else was transitional before, or is touched.
still_touched :
    (cfg : Config) (t u : Tables)
    → Reach (permit_of cfg t) t u
    → All
        (λ (r : Position). is_transitional r ≡ true → may_touch t r.position_id ≡ true)
        u.positions
unfolding may_touch
still_touched cfg t u r =
    All-weaken _ _ u.positions
      (λ p f e. elim (Bool-cases (may_touch t p.position_id)) [
        | inl h ↦ h
        | inr h ↦ untouched_lem cfg t u p.position_id r h (f e)
      ])
      (any-rows_of (λ (p : Position). p.position_id) is_transitional u.positions u.positions
        (λ k e. e))

in_flight_touched :
    (t : Tables) → All (λ (o : Order). may_touch t o.position_id ≡ true) (orders_in_flight t)
unfolding may_touch
in_flight_touched t =
    All-weaken _ _ (orders_in_flight t) (λ o e. rw e refl)
      (any_self (orders_in_flight t) (orders_in_flight t) (λ k e. e))

module _ {W : Type 0} (broker : Broker W) (digest : IdText → ℕ) (cfg : Config) (learns : Bool) where
  -- A pass of `sync`, whether or not an exception ends it, is a run of steps on the store. The steps
  -- permit no position but those with an order in flight and those that are opening or closing.
  pub sync-Reach :
      (now : Instant) (s : Session W)
      → Reach (permit_of cfg s.tables) s.tables (sync broker digest cfg learns now s).0.tables
  unfolding sync sweep_orphans open_positions
  sync-Reach now s =
      let looped =
        handle_all_steps broker digest cfg learns {permit = permit_of cfg s.tables} now
          (orders_in_flight s.tables) s refl (in_flight_touched s.tables) in
      if_pair_steps _ s.tables _ _ looped (
        Reach-trans looped (
          sweep_rows_steps broker digest cfg learns now _ _ _
            (All-keep_if _ _ _ (still_touched cfg s.tables _ looped))))

  -- Under a halt a pass records no opening order, and the halt stands.
  pub halted_sync_opens_nothing :
      (now : Instant) (s : Session W) (c : ℕ)
      → is_halted s.tables.system ≡ true
      → let t = (sync broker digest cfg learns now s).0.tables in
        (is_halted t.system ≡ true) × (has_entry c t ≡ true → has_entry c s.tables ≡ true)
  halted_sync_opens_nothing now s c h =
      (ap is_halted (Reach-system (sync-Reach now s)) ∙ h, Reach-has_entry c h (sync-Reach now s))

  -- A pass leaves a position alone that is neither opening nor closing and has no order in flight.
  pub settled_position_kept :
      (now : Instant) (s : Session W) (k : ℕ)
      → may_touch s.tables k ≡ false
      → position_rows k (sync broker digest cfg learns now s).0.tables ≡ position_rows k s.tables
  settled_position_kept now s k h = Reach-elsewhere k h (sync-Reach now s)

  -- No pass counts more rungs on a position's entry ladder than `entry_ladder_steps`.
  pub ladder_stays-IsBounded :
      (now : Instant) (s : Session W)
      → IsBounded cfg.execution.entry_ladder_steps s.tables.entry_attempts
      → IsBounded cfg.execution.entry_ladder_steps
          (sync broker digest cfg learns now s).0.tables.entry_attempts
  ladder_stays-IsBounded now s h = Reach-IsBounded h (sync-Reach now s)
