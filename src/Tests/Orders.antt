-- ===== src/Tests/Orders.antt =====
-- Runs of the router and of the lifecycle of glassbox/execution.
use glassbox_ai_quant.Prelude.{
  if◌then◌else◌, contains, lookup, ℕ, ◌+◌, ◌≡◌, refl, ap, ◌≢◌, inr, true, false, Option, none, some,
  [], ◌∷◌, arith,
}
use glassbox_ai_quant.Prelude.Int.{
  pos, negsuc, ◌+ℤ◌, ◌-ℤ◌, ◌*ℤ◌, neg, abs, ◌≤ℤ◌, ltb_ℤ, min_ℤ, max_ℤ, floor_div,
}
use glassbox_ai_quant.Prelude.Decimal.{Decimal, whole, times, over}
use glassbox_ai_quant.Prelude.Cents.{cent, round_cents}
use glassbox_ai_quant.Clock.{Instant}
use glassbox_ai_quant.Config.{default_execution, default_config}
use glassbox_ai_quant.Structures.{
  put, bull_put_spread, Structure, ok, quantity, assert_defined_risk,
}
use glassbox_ai_quant.Structures.WorstCase.{vertical}
use glassbox_ai_quant.SystemState.{diverged, is_halted, fresh}
use glassbox_ai_quant.Breaker.{new_breaker}
use glassbox_ai_quant.Manage.Views.{neither, PositionView, unrealized_pnl}
use glassbox_ai_quant.Store.Rows.{
  PositionStatus, opening, failed, to_open, to_close, submitted, expired,
}
use glassbox_ai_quant.Store.{
  Order, spread_field, Position, Tables, record_order, update_order, get_order, orders_in_flight,
  latest_order_for, get_position, open_positions, counter,
}
use glassbox_ai_quant.Execution.Ids.{
  escalated, IdText, open_text, close_text, client_order_id, close_order_id,
}
use glassbox_ai_quant.Execution.Router.{
  leg_requests, Submission, request_of, BrokerStatus, order_live, BrokerOrder, Broker,
  order_duplicate_suppressed, Session, existing, placed, failed_submit, set_submitted, log, guarded,
  order_of, conclude, announced, send, deliver, submit_structure, confirm, poll, note_cancel,
  cancel,
}
use glassbox_ai_quant.Execution.Router.Submit.{
  Recorded, IsSound, unsound_submit_raises, submit-Recorded, resubmit_suppressed,
  crashed_submit_confirmed,
}
use glassbox_ai_quant.Execution.Lifecycle.Prices.{
  scaled_budget, entry_budget_seconds, full_step, concession_cap, with_step, next_rung,
}
use glassbox_ai_quant.Execution.Lifecycle.Outcomes.{on_dead, on_fill}
use glassbox_ai_quant.Execution.Lifecycle.{
  act_on, after_poll, handle, handle_all, sweep_row, sweep_rows, sweep_orphans, sync,
}
use glassbox_ai_quant.Execution.Lifecycle.Steps.{IsBounded, has_entry}
use glassbox_ai_quant.Execution.Lifecycle.Sweep.{halted_sync_opens_nothing, ladder_stays-IsBounded}
use glassbox_ai_quant.Execution.Lifecycle.Bounds.{rung_bounded}
use glassbox_ai_quant.Execution.Lifecycle.Fates.{HasStatus}
use glassbox_ai_quant.Execution.Lifecycle.Closes.{close_books_mark, dead_close_fresh_id}
use glassbox_ai_quant.Execution.Lifecycle.Escalation.{
  submit_rung, escalate_entry, expire_entry, maybe_expire,
}
use glassbox_ai_quant.Execution.Lifecycle.Orphans.{swept, sweep_outcome}
use glassbox_ai_quant.Breaker

abbrev spread : Structure
spread = vertical bull_put_spread 7 put 30 (1, 95000000) (2, 90000000)

-- A broker that counts its calls, takes every order and knows every order in this status.
abbrev broker_with : BrokerStatus → Broker ℕ
broker_with st = record {
  submit_order = λ q w. (w + 1, some 77);
  get_order_by_client_id =
      λ c w. (w + 1, some (record { id = 77; status = st; filled_avg_price = some (pos 1200000) }));
  cancel_order_by_id = λ a w. (w + 1, some tt);
  spot = λ u w. (w, some (whole 100));
  monotonic = λ w. whole w;
  utc_now = λ w. pos 0;
}

abbrev no_tables : Tables
no_tables = record {
  orders = [];
  positions = [];
  arms = [];
  entry_attempts = [];
  close_attempts = [];
  close_barriers = [];
  system = fresh;
}

abbrev new_session : Tables → Session ℕ
new_session t = record { world = 0; breaker = new_breaker 3 (whole 60); tables = t; audit = [] }

abbrev entry : Submission
entry = record {
  structure = spread;
  qty = 2;
  limit_price = negsuc 1199999;
  client_order_id = 5;
  position_id = 4;
  closing = false;
}

spread-asserted : assert_defined_risk spread ≡ ok tt
unfolding assert_defined_risk quantity
spread-asserted = refl

entry-IsSound : IsSound entry
entry-IsSound = record { defined = spread-asserted; some_quantity = omega arith }

entry_placed :
    (submit_structure (broker_with order_live) entry (new_session no_tables)).1 ≡ placed 77
unfolding submit_structure deliver send conclude guarded get_order record_order update_order
    Breaker.call assert_defined_risk quantity
entry_placed = refl

unsound_submit_raises_example :
    let r =
      submit_structure
        (broker_with order_live)
        (record entry { qty = 0 })
        (new_session no_tables) in
    (r.0 ≡ new_session no_tables) × (failed_submit r.1 ≡ true)
unsound_submit_raises_example =
    unsound_submit_raises (broker_with order_live) (record entry { qty = 0 })
      (new_session no_tables) (inr (omega arith))

submit-Recorded_example :
    let r = submit_structure (broker_with order_live) entry (new_session no_tables) in
    Recorded r.1 (get_order 5 r.0.tables)
submit-Recorded_example =
    submit-Recorded (broker_with order_live) entry (new_session no_tables) entry-IsSound

resubmit_suppressed_example :
    let s' = (submit_structure (broker_with order_live) entry (new_session no_tables)).0 in
    (o : Order) × (o.alpaca_order_id ≡ some 77)
    × (submit_structure (broker_with order_live) (record entry { qty = 1 }) s'
        ≡ (log (order_duplicate_suppressed 5) s', existing o))
resubmit_suppressed_example =
    resubmit_suppressed (broker_with order_live) entry (record entry { qty = 1 })
      (new_session no_tables) 77 entry-IsSound
      (record { defined = spread-asserted; some_quantity = omega arith }) refl entry_placed

abbrev crashed : Session ℕ
crashed =
    (guarded (broker_with order_live) ((broker_with order_live).submit_order (request_of entry))
      (announced (broker_with order_live) entry (new_session no_tables))).0

abbrev known : BrokerOrder
known = record { id = 77; status = order_live; filled_avg_price = some (pos 1200000) }

no_order : get_order 5 no_tables ≡ none
unfolding get_order
no_order = refl

crashed_polled : (poll (broker_with order_live) 5 crashed).1 ≡ some known
unfolding poll confirm guarded get_order record_order Breaker.call leg_requests
crashed_polled = refl

crashed_submit_confirmed_example :
    get_order 5 (poll (broker_with order_live) 5 crashed).0.tables
    ≡ some (set_submitted 77 (order_of (broker_with order_live) entry (new_session no_tables)))
crashed_submit_confirmed_example =
    crashed_submit_confirmed (broker_with order_live) entry (new_session no_tables) known no_order
      crashed_polled

abbrev row : Position
row = record {
  position_id = 4;
  signal_id = 9;
  structure = spread;
  qty = 2;
  entry_price = some (negsuc 1199999);
  max_loss = whole 760;
  status = opening;
  regime = some 1;
  features = spread_field (some (whole 3));
  entry_spot = some (whole 100);
  peak_pnl = pos 0;
  exit_barrier = none;
  meta_label = none;
  opened_at = some (pos 0);
  closed_at = none;
  realized_pnl = none;
}

abbrev entry_order : Order
entry_order = record {
  client_order_id = 5;
  alpaca_order_id = some 77;
  position_id = 4;
  intent = to_open;
  status = submitted;
  legs = spread.legs;
  limit_price = some (negsuc 1199999);
  filled_price = none;
  created_at = pos 0;
}

abbrev waiting : Tables
waiting = record no_tables { orders = entry_order ∷ []; positions = row ∷ [] }

abbrev halted_tables : Tables
halted_tables = record waiting { system = record fresh { halt_reason = some diverged } }

-- Ids that tell apart the attempts.
abbrev digest : IdText → ℕ
digest (open_text g st n) = 100 + n
digest (close_text k r n) = 200 + n

-- 90 seconds after the entry, when the first rung is due.
abbrev due : Instant
due = whole 90

abbrev price_of : Option Order → Option Decimal
price_of none = none
price_of (some o) = o.limit_price

-- The first rung asks for a cent less of credit.
rung_runs :
    next_rung default_execution (negsuc 1199999) (negsuc 1199999) (whole 3) ≡ some (negsuc 1189999)
unfolding next_rung full_step concession_cap with_step round_cents times over floor_div ◌+ℤ◌ ◌-ℤ◌
    ◌*ℤ◌ abs max_ℤ neg
rung_runs = refl

tick_up : round_cents (negsuc 1199999 +ℤ pos 10000) ≡ negsuc 1199999 +ℤ pos 10000
unfolding round_cents ◌+ℤ◌ neg
tick_up = refl

rung_bounded_example :
    (negsuc 1199999 +ℤ pos 10000 ≤ℤ negsuc 1189999)
    × (negsuc 1189999 -ℤ negsuc 1199999
        ≤ℤ concession_cap default_execution (negsuc 1199999) +ℤ pos cent)
rung_bounded_example =
    rung_bounded default_execution (negsuc 1199999) (negsuc 1199999) (whole 3) (negsuc 1189999)
      tick_up rung_runs

-- The resting order is cancelled and the rung is in the store.
ladder_runs :
    price_of (
      get_order 101
        (sync
          (broker_with order_live)
          digest
          default_config
          true
          due
          (new_session waiting)).0.tables)
    ≡ some (negsuc 1189999)
unfolding sync handle_all handle after_poll act_on maybe_expire expire_entry escalate_entry
    submit_rung poll confirm guarded cancel note_cancel submit_structure deliver send conclude
    get_order record_order update_order get_position orders_in_flight sweep_orphans sweep_rows
    sweep_row open_positions next_rung full_step concession_cap with_step round_cents times over
    floor_div ◌+ℤ◌ ◌-ℤ◌ ◌*ℤ◌ abs max_ℤ neg entry_budget_seconds scaled_budget min_ℤ
    assert_defined_risk quantity Breaker.call client_order_id
ladder_runs = refl

halted_sync_opens_nothing_example :
    let t =
      (sync
        (broker_with order_live)
        digest
        default_config
        true
        due
        (new_session halted_tables)).0.tables in
    (is_halted t.system ≡ true) × (has_entry 101 t ≡ true → has_entry 101 halted_tables ≡ true)
halted_sync_opens_nothing_example =
    halted_sync_opens_nothing (broker_with order_live) digest default_config true due
      (new_session halted_tables) 101 refl

ladder_stays-IsBounded_example :
    IsBounded 2
      (sync
        (broker_with order_live)
        digest
        default_config
        true
        due
        (new_session waiting)).0.tables.entry_attempts
ladder_stays-IsBounded_example =
    ladder_stays-IsBounded (broker_with order_live) digest default_config true due
      (new_session waiting) (λ k. omega arith)

row_found : get_position 4 waiting ≡ some row
unfolding get_position
row_found = refl

abbrev dead_order : Order
dead_order = record entry_order { status = expired }

abbrev orphaned : Tables
orphaned = record waiting { orders = dead_order ∷ [] }

orphan_found : get_position 4 orphaned ≡ some row
unfolding get_position
orphan_found = refl

orphan_fails : swept row.status (λ i. latest_order_for 4 i orphaned) ≡ failed
unfolding latest_order_for
orphan_fails = refl

sweep_outcome_example :
    HasStatus 4
      (if contains 4 [] then row.status else swept row.status (λ i. latest_order_for 4 i orphaned))
      (sweep_row
        (broker_with order_live)
        digest
        default_config
        true
        due
        []
        row
        (new_session orphaned)).tables
sweep_outcome_example =
    sweep_outcome (broker_with order_live) digest default_config true due [] row
      (new_session orphaned) orphan_found

abbrev closing_row : Position
closing_row = record row { status = PositionStatus.closing }

abbrev leaving : Tables
leaving = record no_tables { positions = closing_row ∷ [] }

abbrev exit_order : Order
exit_order = record entry_order { client_order_id = 6; intent = to_close }

closing_row_found : get_position 4 leaving ≡ some closing_row
unfolding get_position
closing_row_found = refl

abbrev view : PositionView
view = record {
  position_id = 4;
  kind = bull_put_spread;
  qty = 2;
  entry_price = negsuc 1199999;
  current_price = negsuc 599999;
  max_loss_per_spread = whole 380;
  opened_at = pos 0;
  horizon_hours = whole 4;
  hours_to_expiry = whole 72;
  peak_pnl = pos 0;
  thesis_direction = neither;
  thesis_move_pct = pos 0;
  entry_spot = whole 100;
  current_spot = whole 100;
}

close_books_mark_example :
    (booked : Position) × (get_position 4
        (on_fill
          (broker_with order_live)
          true
          exit_order
          (some (neg (negsuc 599999)))
          due
          (new_session leaving)).tables
      ≡ some booked)
    × (booked.status ≡ PositionStatus.closed)
    × (booked.realized_pnl ≡ some (unrealized_pnl view))
    × (booked.meta_label ≡ some (ltb_ℤ (pos 0) (unrealized_pnl view)))
close_books_mark_example =
    close_books_mark (broker_with order_live) true exit_order closing_row view due
      (new_session leaving) refl closing_row_found (record { same_qty = refl; same_entry = refl })

told_apart :
    (n n' : ℕ)
    → digest (close_text 4 escalated n) ≡ digest (close_text 4 escalated n')
    → close_text 4 escalated n ≡ close_text 4 escalated n'
told_apart n n' e = let same : n ≡ n' = omega (arith, e) in ap (λ m. close_text 4 escalated m) same

dead_close_fresh_id_example :
    close_order_id digest 4 escalated (
      counter 0 (lookup 4 (on_dead exit_order expired (new_session leaving)).tables.close_attempts))
    ≢ close_order_id digest 4 escalated 0
dead_close_fresh_id_example =
    dead_close_fresh_id digest exit_order expired closing_row (new_session leaving) escalated
      escalated (told_apart _ _) refl closing_row_found refl
