-- ===== src/Execution/Lifecycle/Orphans.antt =====
-- What the sweep of glassbox/execution/lifecycle.py makes of a position that no order in flight speaks
-- for.
use mathlib.Core.Option.{some_inj}
use glassbox_ai_quant.Prelude.{
  ◌==◌, if◌then◌else◌, ==_iff, Bool-cases, Option-cases, and-true, keep_if, contains, ℕ, ◌≡◌, refl,
  ap, ◌∙◌, inl, inr, Bool, true, false, ◌&&◌, Option, none, some, List, [], ◌∷◌, arith,
}
use glassbox_ai_quant.Prelude.Int.{ltb_ℤ}
use glassbox_ai_quant.Clock.{Instant}
use glassbox_ai_quant.Config.{Config}
use glassbox_ai_quant.Store.Rows.{
  PositionStatus, opening, opened, closing, closed, failed, Intent, to_open, to_close, OrderStatus,
  pending, submitted, filled, canceled, expired, is_unresolved,
}
use glassbox_ai_quant.Store.{
  Order, Position, Tables, same_intent, newer, newest, latest_order_for, get_position,
}
use glassbox_ai_quant.Execution.Ids.{IdText}
use glassbox_ai_quant.Execution.Router.{Broker, Session}
use glassbox_ai_quant.Execution.Lifecycle.{
  awaited, resolve_as, resolve, resolve_latest, sweep_for, sweep_row,
}
use glassbox_ai_quant.Execution.Lifecycle.Fates.{fate, HasStatus, on_dead_status, on_fill_status}

newer_lem :
    (p : Order → Bool) (r : Order) (rest : Option Order) (o : Order)
    → p r ≡ true
    → ((n : Order) → rest ≡ some n → p n ≡ true)
    → newer r rest ≡ some o
    → p o ≡ true
newer_lem p r none o q h e = rw (← some_inj.0 e) q
newer_lem p r (some n) o q h e = elim (Bool-cases (ltb_ℤ n.created_at r.created_at)) [
  | inl c ↦ rw (← some_inj.0 (rw c at e)) q
  | inr c ↦ rw (← some_inj.0 (rw c at e)) (h n refl)
]

newest-keeps :
    (p : Order → Bool) (rows : List Order) (o : Order)
    → newest (keep_if p rows) ≡ some o
    → p o ≡ true
unfolding newest
newest-keeps p [] o e = absurd (ground (arith, e))
newest-keeps p (r ∷ rows) o e = elim (Bool-cases (p r)) [
  | inr q ↦ newest-keeps p rows o (rw q at e)
  | inl q ↦ newer_lem p r (newest (keep_if p rows)) o q (λ n. newest-keeps p rows n) (rw q at e)
]

same_intent_lem : (i j : Intent) → same_intent i j ≡ true → i ≡ j
same_intent_lem to_open to_open e = refl
same_intent_lem to_close to_close e = refl
same_intent_lem to_open to_close e = absurd (ground (arith, e))
same_intent_lem to_close to_open e = absurd (ground (arith, e))

-- The newest order for a position and a purpose is an order for them.
latest_order_for-matches :
    (k : ℕ) (i : Intent) (t : Tables) (o : Order)
    → latest_order_for k i t ≡ some o
    → (k ≡ o.position_id) × (i ≡ o.intent)
unfolding latest_order_for
latest_order_for-matches k i t o e =
    let both =
      newest-keeps (λ (r : Order). k == r.position_id && same_intent i r.intent) t.orders o e in
    let (a, b) = and-true _ _ both in ((==_iff _ _).0 a, same_intent_lem i o.intent b)

-- The status of a position with this status, once the sweep has seen the newest order for what the
-- position awaits.
abbrev pub settled : PositionStatus → Intent → Option Order → PositionStatus
settled st i none = st
settled st i (some o) = if is_unresolved o.status then st else fate i o.status

-- An opening position awaits its entry, a closing one its exit, and no other awaits anything.
abbrev pub swept : PositionStatus → (Intent → Option Order) → PositionStatus
swept opening newest_for = settled opening to_open (newest_for to_open)
swept closing newest_for = settled closing to_close (newest_for to_close)
swept st newest_for = st

module _ {W : Type 0} (broker : Broker W) (digest : IdText → ℕ) (cfg : Config) (learns : Bool) where
  resolve_as_status :
      (os : OrderStatus) (now : Instant) (o : Order) (row : Position) (s : Session W)
      → get_position o.position_id s.tables ≡ some row
      → awaited row.status ≡ some o.intent
      → is_unresolved os ≡ false
      → HasStatus o.position_id
          (fate o.intent os)
          (resolve_as broker digest cfg learns os now o s).tables
  resolve_as_status pending now o row s h w u = absurd (ground (arith, u))
  resolve_as_status submitted now o row s h w u = absurd (ground (arith, u))
  resolve_as_status filled now o row s h w u =
      on_fill_status broker learns o o.filled_price now row s h
  resolve_as_status canceled now o row s h w u =
      on_dead_status o canceled row s h w (λ e. ground (arith, e))
  resolve_as_status OrderStatus.rejected now o row s h w u =
      on_dead_status o OrderStatus.rejected row s h w (λ e. ground (arith, e))
  resolve_as_status expired now o row s h w u =
      on_dead_status o expired row s h w (λ e. ground (arith, e))

  resolve_status :
      (now : Instant) (o : Order) (row : Position) (s : Session W)
      → get_position o.position_id s.tables ≡ some row
      → awaited row.status ≡ some o.intent
      → is_unresolved o.status ≡ false
      → HasStatus o.position_id
          (fate o.intent o.status)
          (resolve broker digest cfg learns now o s).tables
  resolve_status now o row s h w u = resolve_as_status o.status now o row s h w u

  latest_outcome :
      (now : Instant) (row : Position) (i : Intent) (latest : Option Order) (o : Order)
      (s : Session W)
      → latest ≡ some o
      → row.position_id ≡ o.position_id
      → i ≡ o.intent
      → get_position row.position_id s.tables ≡ some row
      → awaited row.status ≡ some i
      → is_unresolved o.status ≡ false
      → HasStatus row.position_id
          (fate i o.status)
          (resolve_latest broker digest cfg learns now latest s).tables
  latest_outcome now row i latest o s e k same h w u =
      rw (e, same, k) (resolve_status now o row s (rw (← k) h) (w ∙ ap some same) u)

  ended_outcome :
      (now : Instant) (row : Position) (i : Intent) (o : Order) (s : Session W)
      → get_position row.position_id s.tables ≡ some row
      → awaited row.status ≡ some i
      → latest_order_for row.position_id i s.tables ≡ some o
      → is_unresolved o.status ≡ false
      → HasStatus row.position_id
          (fate i o.status)
          (resolve_latest broker digest cfg learns now
            (latest_order_for row.position_id i s.tables)
            s).tables
  ended_outcome now row i o s h w latest u =
      let (k, same) = latest_order_for-matches row.position_id i s.tables o latest in
      latest_outcome now row i (latest_order_for row.position_id i s.tables) o s latest k same h w u

  unresolved_kept :
      (os : OrderStatus) (now : Instant) (o : Order) (s : Session W)
      → is_unresolved os ≡ true
      → resolve_as broker digest cfg learns os now o s ≡ s
  unresolved_kept pending now o s u = refl
  unresolved_kept submitted now o s u = refl
  unresolved_kept filled now o s u = absurd (ground (arith, u))
  unresolved_kept canceled now o s u = absurd (ground (arith, u))
  unresolved_kept OrderStatus.rejected now o s u = absurd (ground (arith, u))
  unresolved_kept expired now o s u = absurd (ground (arith, u))

  latest_status :
      (now : Instant) (row : Position) (i : Intent) (s : Session W)
      → get_position row.position_id s.tables ≡ some row
      → awaited row.status ≡ some i
      → HasStatus row.position_id
          (settled row.status i (latest_order_for row.position_id i s.tables))
          (resolve_latest broker digest cfg learns now
            (latest_order_for row.position_id i s.tables)
            s).tables
  latest_status now row i s h w =
      elim (Option-cases (latest_order_for row.position_id i s.tables)) [
        | inl n ↦ rw n (row, h, refl)
        | inr (o, n) ↦ elim (Bool-cases (is_unresolved o.status)) [
          | inl u ↦ rw (n, u, unresolved_kept o.status now o s u) (row, h, refl)
          | inr u ↦ let ended = ended_outcome now row i o s h w n u in rw (n, u) (rw n at ended)
        ]
      ]

  -- What the sweep's step leaves of any position of the store. One that has an order in flight keeps its
  -- status, and so does one that is neither opening nor closing, one that has no order for what it awaits,
  -- and one whose newest such order has not ended. Otherwise an entry that filled leaves it open, one that
  -- died failed, a close that filled closed, and one that died open again.
  pub sweep_outcome :
      (now : Instant) (in_flight : List ℕ) (row : Position) (s : Session W)
      → get_position row.position_id s.tables ≡ some row
      → HasStatus row.position_id
          (if contains row.position_id in_flight
            then row.status
            else swept row.status (λ i. latest_order_for row.position_id i s.tables))
          (sweep_row broker digest cfg learns now in_flight row s).tables
  unfolding sweep_row
  sweep_outcome now in_flight row s h = elim (Bool-cases (contains row.position_id in_flight)) [
    | inl e ↦ rw e (row, h, refl)
    | inr e ↦ rw e (swept_lem row.status refl)
  ]
    where
      swept_lem :
          (st : PositionStatus)
          → row.status ≡ st
          → HasStatus row.position_id
              (swept st (λ i. latest_order_for row.position_id i s.tables))
              (sweep_for broker digest cfg learns now row (awaited st) s).tables
      swept_lem opening e = rw (← e) (latest_status now row to_open s h (ap awaited e))
      swept_lem closing e = rw (← e) (latest_status now row to_close s h (ap awaited e))
      swept_lem opened e = (row, h, e)
      swept_lem closed e = (row, h, e)
      swept_lem failed e = (row, h, e)
