-- ===== src/Execution/Lifecycle/Passes.antt =====
-- The router's calls and the end of an order, as steps on the store.
use glassbox_ai_quant.Prelude.{
  ltb, if◌then◌else◌, Bool-cases, Option-cases, ℕ, ◌≡◌, refl, inl, inr, Bool, true, false, Option,
  none, some,
}
use glassbox_ai_quant.Clock.{Instant}
use glassbox_ai_quant.Config.{Config}
use glassbox_ai_quant.Structures.{Result, err, ok, assert_defined_risk}
use glassbox_ai_quant.SystemState.{is_halted}
use glassbox_ai_quant.Store.Rows.{
  PositionStatus, opening, opened, closing, closed, failed, Intent, to_open, to_close, OrderStatus,
  canceled,
}
use glassbox_ai_quant.Store.{
  Order, Position, Tables, update_order, get_order, update_position, close_position, update_bandit,
}
use glassbox_ai_quant.Execution.Router.{
  Submission, BrokerOrder, Broker, OrderEvent, fill_spot_refresh_skipped,
  fill_risk_recompute_skipped, Session, is_sent, set_status, set_submitted, intent_for, guarded,
  order_of, conclude, announced, send, deliver, checked, submit_structure, is_unconfirmed, confirm,
  poll, note_cancel, cancel,
}
use glassbox_ai_quant.Execution.Router.Records.{guarded_keeps}
use glassbox_ai_quant.Execution.Lifecycle.Outcomes.{
  entered, filled_loss, feed_learners, log_if_none, log_if_unread, leave, revive, after_death,
  on_dead, maybe_void_unconfirmed, enter, after_fill, on_fill,
}
use glassbox_ai_quant.Execution.Lifecycle.Steps.{
  IsUpdate, Permit, order_moves, position_moves, order_recorded, attempt_counted, bandit_learned,
  Reach, here, Reach-trans, Reach-eq, Reach-Step,
}
use glassbox_ai_quant.Prelude.Decimal.{Decimal}

pub status-IsUpdate : (st : OrderStatus) → IsUpdate (set_status st)
status-IsUpdate st = record { id = λ o. refl; intent = λ o. refl }

submitted-IsUpdate : (id : ℕ) → IsUpdate (set_submitted id)
submitted-IsUpdate id = record { id = λ o. refl; intent = λ o. refl }

module _ {permit : Permit} where
  pub step_order :
      (c : ℕ) (f : Order → Order) (t : Tables) → IsUpdate f → Reach permit t (update_order c f t)
  step_order c f t u = Reach-Step (order_moves c f u refl)

  pub step_position :
      (k : ℕ) (f : Position → Position) (t : Tables)
      → permit.allowed k ≡ true
      → ((r : Position) → (f r).position_id ≡ r.position_id)
      → Reach permit t (update_position k f t)
  step_position k f t h keeps = Reach-Step (position_moves k f h keeps refl)

module _ {W : Type 0} (broker : Broker W) {permit : Permit} where
  pub guarded_steps :
      {A : Type 0} (f : W → W × Option A) (s : Session W)
      → Reach permit s.tables (guarded broker f s).0.tables
  guarded_steps f s = Reach-eq ((guarded_keeps broker f s).0)

  conclude_steps :
      (c : ℕ) (r : Session W × Option ℕ) → Reach permit r.0.tables (conclude broker c r).0.tables
  unfolding conclude
  conclude_steps c (s, none) = step_order c _ s.tables (status-IsUpdate OrderStatus.rejected)
  conclude_steps c (s, some id) = step_order c _ s.tables (submitted-IsUpdate id)

  send_steps :
      (q : Submission) (s : Session W)
      → (intent_for q.closing ≡ to_open → is_halted s.tables.system ≡ false)
      → Reach permit s.tables (send broker q s).0.tables
  unfolding send
  send_steps q s h =
      let recorded = Reach-Step (order_recorded (order_of broker q s) h refl) in
      Reach-trans recorded
        (Reach-trans (guarded_steps _ (announced broker q s)) (conclude_steps q.client_order_id _))

  deliver_steps :
      (q : Submission) (row : Option Order) (s : Session W)
      → (intent_for q.closing ≡ to_open → is_halted s.tables.system ≡ false)
      → Reach permit s.tables (deliver broker q row s).0.tables
  unfolding deliver
  deliver_steps q none s h = send_steps q s h
  deliver_steps q (some o) s h = elim (Bool-cases (is_sent o.status)) [
    | inl e ↦ rw e here
    | inr e ↦ rw e (send_steps q s h)
  ]

  checked_steps :
      (q : Submission) (r : Result (Unit {0})) (s : Session W)
      → (intent_for q.closing ≡ to_open → is_halted s.tables.system ≡ false)
      → Reach permit s.tables (checked broker q r s).0.tables
  checked_steps q (err e) s h = here
  checked_steps q (ok _) s h = elim (Bool-cases (ltb q.qty 1)) [
    | inl e ↦ rw e here
    | inr e ↦ rw e (deliver_steps q (get_order q.client_order_id s.tables) s h)
  ]

  -- A submission records an opening order only where there is no halt.
  pub submit_steps :
      (q : Submission) (s : Session W)
      → (intent_for q.closing ≡ to_open → is_halted s.tables.system ≡ false)
      → Reach permit s.tables (submit_structure broker q s).0.tables
  unfolding submit_structure
  submit_steps q s h = checked_steps q (assert_defined_risk q.structure) s h

  confirm_steps :
      (c : ℕ) (r : Session W × Option BrokerOrder)
      → Reach permit r.0.tables (confirm broker c r).0.tables
  unfolding confirm
  confirm_steps c (s, none) = here
  confirm_steps c (s, some o) = elim (Bool-cases (is_unconfirmed broker (get_order c s.tables))) [
    | inl e ↦ rw e (step_order c _ s.tables (submitted-IsUpdate o.id))
    | inr e ↦ rw e here
  ]

  pub poll_steps : (c : ℕ) (s : Session W) → Reach permit s.tables (poll broker c s).0.tables
  unfolding poll
  poll_steps c s = Reach-trans (guarded_steps _ s) (confirm_steps c _)

  note_cancel_steps :
      (c : ℕ) (r : Session W × Option (Unit {0}))
      → Reach permit r.0.tables (note_cancel broker c r).0.tables
  unfolding note_cancel
  note_cancel_steps c (s, none) = here
  note_cancel_steps c (s, some _) = step_order c _ s.tables (status-IsUpdate canceled)

  pub cancel_steps :
      (c : ℕ) (a : Option ℕ) (s : Session W) → Reach permit s.tables (cancel broker c a s).0.tables
  unfolding cancel
  cancel_steps c a s = Reach-trans (guarded_steps _ s) (note_cancel_steps c _)

module _ {permit : Permit} where
  feed_steps :
      (learns won : Bool) (row : Position) (t : Tables)
      → Reach permit t (feed_learners learns row won t)
  unfolding update_bandit
  feed_steps learns won row t = elim (Option-cases row.regime) [
    | inl n ↦ rw n here
    | inr (g, n) ↦ rw n (elim (Bool-cases learns) [
      | inl e ↦ rw e (Reach-Step (bandit_learned _ refl))
      | inr e ↦ rw e here
    ])
  ]

module _ {W : Type 0} {permit : Permit} where
  pub if_steps :
      (b : Bool) (t : Tables) (s s' : Session W)
      → Reach permit t s.tables
      → Reach permit t s'.tables
      → Reach permit t (if b then s else s').tables
  if_steps true t s s' h k = h
  if_steps false t s s' h k = k

  leave_steps :
      (learns : Bool) (k : ℕ) (row : Position) (fill : Option Decimal) (now : Instant)
      (s : Session W)
      → permit.allowed k ≡ true
      → Reach permit s.tables (leave learns k row fill now s).tables
  unfolding leave close_position
  leave_steps learns k row fill now s h =
      Reach-trans (step_position k _ s.tables h (λ r. refl)) (feed_steps learns _ row _)

  revive_steps :
      (i : Intent) (st : PositionStatus) (k : ℕ) (s : Session W)
      → permit.allowed k ≡ true
      → Reach permit s.tables (revive i st k s).tables
  unfolding revive
  revive_steps to_open opening k s h = step_position k _ s.tables h (λ r. refl)
  revive_steps to_close closing k s h =
      Reach-trans (Reach-Step (attempt_counted _ _ (λ b. b) refl))
        (step_position k _ _ h (λ r. refl))
  revive_steps to_open opened k s h = here
  revive_steps to_open closing k s h = here
  revive_steps to_open closed k s h = here
  revive_steps to_open failed k s h = here
  revive_steps to_close opening k s h = here
  revive_steps to_close opened k s h = here
  revive_steps to_close closed k s h = here
  revive_steps to_close failed k s h = here

  after_death_steps :
      (o : Order) (row : Option Position) (s : Session W)
      → permit.allowed o.position_id ≡ true
      → Reach permit s.tables (after_death o row s).tables
  after_death_steps o none s h = here
  after_death_steps o (some row) s h = revive_steps o.intent row.status o.position_id s h

  pub on_dead_steps :
      (o : Order) (st : OrderStatus) (s : Session W)
      → permit.allowed o.position_id ≡ true
      → Reach permit s.tables (on_dead o st s).tables
  unfolding on_dead
  on_dead_steps o st s h =
      Reach-trans (step_order o.client_order_id _ s.tables (status-IsUpdate st))
        (after_death_steps o _ _ h)

  pub void_steps :
      (cfg : Config) (o : Order) (now : Instant) (s : Session W)
      → Reach permit s.tables (maybe_void_unconfirmed cfg o now s).tables
  unfolding maybe_void_unconfirmed
  void_steps cfg o now s =
      if_steps _ s.tables _ s (step_order o.client_order_id _ s.tables (status-IsUpdate canceled))
        here

module _ {W : Type 0} where
  pub log_if_none_keeps :
      (x : Option Decimal) (e : OrderEvent) (s : Session W) → (log_if_none x e s).tables ≡ s.tables
  log_if_none_keeps none e s = refl
  log_if_none_keeps (some x) e s = refl

  pub log_if_unread_keeps :
      (x y : Option Decimal) (e : OrderEvent) (s : Session W)
      → (log_if_unread x y e s).tables ≡ s.tables
  log_if_unread_keeps none y e s = refl
  log_if_unread_keeps (some x) none e s = refl
  log_if_unread_keeps (some x) (some y) e s = refl

module _ {W : Type 0} (broker : Broker W) (learns : Bool) {permit : Permit} where
  enter_steps :
      (k : ℕ) (row : Position) (fill : Option Decimal) (s : Session W)
      → permit.allowed k ≡ true
      → Reach permit s.tables (enter broker learns k row fill s).tables
  unfolding enter entered
  enter_steps k row fill s h =
      let read = broker.spot row.structure.underlying s.world in
      let s' = log_if_none read.1 (fill_spot_refresh_skipped k) (record s { world = read.0 }) in
      rw
        (
          log_if_unread_keeps fill (filled_loss row fill) (fill_risk_recompute_skipped k) s',
          log_if_none_keeps read.1 (fill_spot_refresh_skipped k) (record s { world = read.0 }),
        )
        (step_position k _ s.tables h (λ r. refl))

  after_fill_steps :
      (i : Intent) (k : ℕ) (row : Option Position) (fill : Option Decimal) (now : Instant)
      (s : Session W)
      → permit.allowed k ≡ true
      → Reach permit s.tables (after_fill broker learns i k row fill now s).tables
  after_fill_steps to_open k none fill now s h = here
  after_fill_steps to_close k none fill now s h = here
  after_fill_steps to_open k (some row) fill now s h = enter_steps k row fill s h
  after_fill_steps to_close k (some row) fill now s h = leave_steps learns k row fill now s h

  pub on_fill_steps :
      (o : Order) (fill : Option Decimal) (now : Instant) (s : Session W)
      → permit.allowed o.position_id ≡ true
      → Reach permit s.tables (on_fill broker learns o fill now s).tables
  unfolding on_fill
  on_fill_steps o fill now s h =
      Reach-trans
        (step_order o.client_order_id _ s.tables (record { id = λ r. refl; intent = λ r. refl }))
        (after_fill_steps o.intent o.position_id _ fill now _ h)
