-- ===== src/Execution/Router/Submit.antt =====
-- `submit_structure` of glassbox/execution/router.py: that it refuses, that it can be repeated, and
-- that a crash of it can be made good.
use glassbox_ai_quant.Prelude.{
  Bool-cases, Option-cases, ℕ, ◌≤◌, ◌<◌, ◌≡◌, refl, ◌∙◌, ◌≢◌, ◌⊎◌, inl, inr, true, Option, none,
  some, arith,
}
use glassbox_ai_quant.Structures.{ok, Result-cases, assert_defined_risk}
use glassbox_ai_quant.Store.Rows.{OrderStatus, pending, submitted}
use glassbox_ai_quant.Store.{Order, Tables, record_order, get_order}
use glassbox_ai_quant.Execution.Router.{
  Submission, request_of, BrokerOrder, Broker, order_duplicate_suppressed, Session, Submitted,
  undefined_risk, no_quantity, broker_error, existing, placed, failed_submit, is_sent, set_status,
  set_submitted, log, guarded, order_of, conclude, announced, send, deliver, submit_structure,
  confirm, poll,
}
use glassbox_ai_quant.Execution.Router.Records.{guarded_keeps, get_order-update, get_order-record}

-- What the row of an order says when `submit_structure` has ended so.
abbrev pub Recorded : Submitted → Option Order → Type 0
Recorded (placed id) row =
    (o : Order) × (row ≡ some o) × (o.status ≡ submitted) × (o.alpaca_order_id ≡ some id)
Recorded broker_error row = (o : Order) × (row ≡ some o) × (o.status ≡ OrderStatus.rejected)
Recorded (existing o) row = (row ≡ some o) × (is_sent o.status ≡ true)
Recorded (undefined_risk e) row = ⊥
Recorded no_quantity row = ⊥

-- A submission that passes the two checks before anything is written.
pub record IsSound (q : Submission) : Type 0 where
  pub defined : assert_defined_risk q.structure ≡ ok tt
  pub some_quantity : 1 ≤ q.qty

get_order-some :
    (o : Order) (t : Tables)
    → (r : Order) × (get_order o.client_order_id (record_order o t) ≡ some r)
get_order-some o t = elim (Option-cases (get_order o.client_order_id t)) [
  | inl e ↦ (o, get_order-record o t ∙ rw e refl)
  | inr (r, e) ↦ (r, get_order-record o t ∙ rw e refl)
]

module _ {W : Type 0} (broker : Broker W) where
  conclude-Recorded :
      (c : ℕ) (r : Session W × Option ℕ) (o : Order)
      → get_order c r.0.tables ≡ some o
      → Recorded (conclude broker c r).1 (get_order c (conclude broker c r).0.tables)
  unfolding conclude
  conclude-Recorded c (s, none) o h = (
    set_status OrderStatus.rejected o,
    get_order-update c (set_status OrderStatus.rejected) s.tables (λ r. refl) o h,
    refl,
  )
  conclude-Recorded c (s, some id) o h = (
    set_submitted id o,
    get_order-update c (set_submitted id) s.tables (λ r. refl) o h,
    refl,
    refl,
  )

  send-Recorded :
      (q : Submission) (s : Session W)
      → Recorded (send broker q s).1 (get_order q.client_order_id (send broker q s).0.tables)
  unfolding send
  send-Recorded q s =
      let f = broker.submit_order (request_of q) in
      let (o, h) = get_order-some (order_of broker q s) s.tables in
      conclude-Recorded q.client_order_id (guarded broker f (announced broker q s)) o
        (rw ((guarded_keeps broker f (announced broker q s)).0) h)

  deliver-Recorded :
      (q : Submission) (s : Session W) (row : Option Order)
      → get_order q.client_order_id s.tables ≡ row
      → Recorded
          (deliver broker q row s).1
          (get_order q.client_order_id (deliver broker q row s).0.tables)
  unfolding deliver
  deliver-Recorded q s none h = send-Recorded q s
  deliver-Recorded q s (some o) h = elim (Bool-cases (is_sent o.status)) [
    | inl e ↦ rw e (h, e)
    | inr e ↦ rw e (send-Recorded q s)
  ]

  submit-deliver :
      (q : Submission) (s : Session W)
      → IsSound q
      → submit_structure broker q s ≡ deliver broker q (get_order q.client_order_id s.tables) s
  unfolding submit_structure
  submit-deliver q s g = rw g.defined (ground (arith, g.some_quantity))

  -- A structure of undefined risk and a quantity below one raise, and neither the broker nor the
  -- store nor the audit log has changed.
  pub unsound_submit_raises :
      (q : Submission) (s : Session W)
      → (assert_defined_risk q.structure ≢ ok tt) ⊎ (q.qty < 1)
      → ((submit_structure broker q s).0 ≡ s)
        × (failed_submit (submit_structure broker q s).1 ≡ true)
  unfolding submit_structure
  unsound_submit_raises q s h = elim (Result-cases (assert_defined_risk q.structure)) [
    | inl e ↦ rw e (ground (arith, h, e))
    | inr (why, e) ↦ rw e (refl, refl)
  ]

  -- However a sound submission ends, its order has a row that says so: submitted with the broker's
  -- id where it is placed, rejected where the broker or the breaker raised, and the row that is
  -- returned where it had been sent before.
  pub submit-Recorded :
      (q : Submission) (s : Session W)
      → IsSound q
      → let r = submit_structure broker q s in Recorded r.1 (get_order q.client_order_id r.0.tables)
  submit-Recorded q s g =
      rw (submit-deliver q s g) (deliver-Recorded q s (get_order q.client_order_id s.tables) refl)

  suppressed_lem :
      (q : Submission) (s : Session W) (o : Order)
      → IsSound q
      → get_order q.client_order_id s.tables ≡ some o
      → is_sent o.status ≡ true
      → submit_structure broker q s
        ≡ (log (order_duplicate_suppressed q.client_order_id) s, existing o)
  unfolding deliver
  suppressed_lem q s o g h sent = submit-deliver q s g ∙ rw (h, sent) refl

  -- Once an order is placed, any sound submission under the same id returns its row with the broker's
  -- id: the broker, the breaker and the tables stay as they are.
  pub resubmit_suppressed :
      (q again : Submission) (s : Session W) (id : ℕ)
      → IsSound q
      → IsSound again
      → again.client_order_id ≡ q.client_order_id
      → (submit_structure broker q s).1 ≡ placed id
      → let s' = (submit_structure broker q s).0 in
        (o : Order) × (o.alpaca_order_id ≡ some id)
        × (submit_structure broker again s'
            ≡ (log (order_duplicate_suppressed q.client_order_id) s', existing o))
  resubmit_suppressed q again s id g g' same e =
      let (o, found, sent, known) = (rw e at (submit-Recorded q s g)) in
      (
        o,
        known,
        suppressed_lem again (submit_structure broker q s).0 o g' (rw same found) (rw sent refl)
            ∙ rw same refl,
      )

  confirm_lem :
      (c : ℕ) (r : Session W × Option BrokerOrder) (o : Order) (b : BrokerOrder)
      → get_order c r.0.tables ≡ some o
      → o.status ≡ pending
      → (confirm broker c r).1 ≡ some b
      → get_order c (confirm broker c r).0.tables ≡ some (set_submitted b.id o)
  unfolding confirm
  confirm_lem c (s, none) o b h p e = absurd (ground (arith, e))
  confirm_lem c (s, some b') o b h p e =
      rw (h, p)
        (ground (arith, e, get_order-update c (set_submitted b.id) s.tables (λ r. refl) o h))

  -- A crash after the broker was called and before its answer was written leaves a pending row. If the
  -- broker knows the order, the next poll makes the row submitted, with the broker's id of it.
  pub crashed_submit_confirmed :
      (q : Submission) (s : Session W) (b : BrokerOrder)
      → get_order q.client_order_id s.tables ≡ none
      → let crashed =
          (guarded broker (broker.submit_order (request_of q)) (announced broker q s)).0 in
        let c = q.client_order_id in
        (poll broker c crashed).1 ≡ some b
        → get_order c (poll broker c crashed).0.tables
          ≡ some (set_submitted b.id (order_of broker q s))
  unfolding poll
  crashed_submit_confirmed q s b absent e =
      let c = q.client_order_id in
      let f = broker.submit_order (request_of q) in
      let crashed = (guarded broker f (announced broker q s)).0 in
      confirm_lem c (guarded broker (broker.get_order_by_client_id c) crashed) (order_of broker q s)
        b
        (rw
          (
            (guarded_keeps broker (broker.get_order_by_client_id c) crashed).0,
            (guarded_keeps broker f (announced broker q s)).0,
          )
          (get_order-record (order_of broker q s) s.tables ∙ rw absent refl))
        refl e
