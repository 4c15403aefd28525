-- ===== src/Tests/Accounts.antt =====
-- Runs of the guards, of the circuit breaker and of the supervisor.
use glassbox_ai_quant.Prelude.{
  ℕ, ◌≡◌, refl, sym, ◌∙◌, ◌≢◌, ◌↔◌, ◌⊎◌, true, false, Option, none, some, List, [], ◌∷◌, arith,
}
use glassbox_ai_quant.Prelude.Int.{pos, ◌-ℤ◌, neg, ◌≤ℤ◌}
use glassbox_ai_quant.Prelude.Decimal.{Decimal, whole}
use glassbox_ai_quant.Config.{default_config}
use glassbox_ai_quant.SystemState.{drawdown_guard, SystemState, is_halted, fresh}
use glassbox_ai_quant.Guards.{
  GuardAction, continue, halt_hard, change_pct, GuardInput, evaluate_guards, update_peak_equity,
  session_baseline,
}
use glassbox_ai_quant.Guards.Halts.{HasBaseline, IsWithin, continue_exact}
use glassbox_ai_quant.Breaker.{open_circuit, CircuitBreaker, new_breaker}
use glassbox_ai_quant.Breaker.Storm.{IsSound, attempt, InCooldown, AllRejected, attempt-rejected}
use glassbox_ai_quant.Supervisor.{
  Client, close_pass, flatten_loop, flatten_all, TickInput, guard_input, latch_breach, tick_verdict,
  tick,
}
use glassbox_ai_quant.Supervisor.Flatten.{started, says_empty, passes, IsDrained, flatten_drains}
use glassbox_ai_quant.Supervisor.Breach.{IsAnswered, tick_secures, tick_keeps_halt}
use glassbox_ai_quant.Reconcile.{check_assignments}
use glassbox_ai_quant.Supervisor.Returns.{IsUp, tick_answers}

-- An account of 100,000 that was at 107,000.
abbrev calm : GuardInput
calm = record {
  equity = whole 100000;
  session_start_equity = whole 100500;
  peak_equity = whole 101000;
  kill_switch = false;
  heartbeat_age_seconds = whole 5;
  heartbeat_timeout = whole 90;
}

continue_exact_example :
    ((evaluate_guards calm default_config).action ≡ continue)
    ↔ ((calm.kill_switch ≡ false) × (HasBaseline calm → IsWithin calm default_config))
continue_exact_example = continue_exact calm default_config

abbrev two_ticks : List (Decimal × Option Decimal)
two_ticks = (whole 100, none) ∷ (whole 90, some (whole 120)) ∷ []

-- A breaker that opens at the third failure, for a minute.
abbrev three : CircuitBreaker
three = new_breaker 3 (whole 60)

abbrev tripped : CircuitBreaker
tripped = record three { state = open_circuit; failures = 3; opened_at = whole 10 }

three-IsSound : IsSound three
three-IsSound = record {
  threshold_pos = omega arith;
  closed_below = λ e. omega arith;
  tripped_some = λ n. absurd (n refl);
}

abbrev two_calls : List (Decimal × Option ℕ)
two_calls = (whole 20, some 1) ∷ (whole 69, none) ∷ []

two_calls-InCooldown : InCooldown tripped two_calls
unfolding ◌-ℤ◌
two_calls-InCooldown = (omega arith, (omega arith, tt))

attempt-rejected_example :
    AllRejected (attempt two_calls tripped).0 × ((attempt two_calls tripped).1 ≡ tripped)
attempt-rejected_example = attempt-rejected two_calls tripped refl two_calls-InCooldown

cooled_down : tripped.cooldown_seconds ≤ℤ whole 70 -ℤ tripped.opened_at
unfolding ◌-ℤ◌
cooled_down = omega arith

-- A broker that closes one position a pass.
abbrev rest_of : List ℕ → List ℕ
rest_of [] = []
rest_of (x ∷ xs) = xs

abbrev slow_broker : Client (List ℕ)
slow_broker = record {
  get_account = λ w. (w, some (whole 93000));
  broker_peak = λ w. some (whole 100000);
  cancel_orders = λ w. (w, true);
  close_all_positions = λ w. (rest_of w, some 1);
  get_all_positions = λ w. (w, some w);
  wait = λ w. w;
}

two_passes :
    says_empty (passes slow_broker 2 (started (slow_broker.cancel_orders (8 ∷ 9 ∷ [])))) ≡ true
unfolding passes close_pass
two_passes = refl

flatten_drains_example : IsDrained slow_broker (flatten_all slow_broker 4 (8 ∷ 9 ∷ []) fresh)
flatten_drains_example =
    flatten_drains slow_broker 4 2 (8 ∷ 9 ∷ []) fresh (omega arith) (omega arith) two_passes

-- The same broker, but it does not answer what is left.
abbrev mute_broker : Client (List ℕ)
mute_broker = record slow_broker { get_all_positions = λ w. (w, none) }

mute_broker_raises :
    let f = flatten_all mute_broker 4 (8 ∷ 9 ∷ []) fresh in
    (f.completed ≡ false) × (f.world ≡ 9 ∷ []) × (f.state ≡ fresh)
unfolding flatten_all flatten_loop close_pass
mute_broker_raises = (refl, refl, refl)

abbrev quiet_input : TickInput
quiet_input = record {
  activities = some [];
  today = 3;
  now = pos 0;
  kill_switch = false;
  heartbeat_timeout = whole 90;
  dry_run = false;
}

tick_halts :
    (tick_verdict slow_broker (whole 93000) quiet_input default_config (8 ∷ 9 ∷ []) fresh).action
    ≡ halt_hard
unfolding tick_verdict evaluate_guards guard_input session_baseline update_peak_equity
    check_assignments change_pct neg
tick_halts = refl

halt_hard-ne_continue : halt_hard ≢ continue
halt_hard-ne_continue = cc

abbrev after_tick : Option GuardAction × (List ℕ × SystemState)
after_tick = tick slow_broker quiet_input default_config (8 ∷ 9 ∷ []) fresh

tick_secures_example :
    (is_halted after_tick.1.1 ≡ true)
    × ((after_tick.0 ≡ none) ⊎ IsAnswered slow_broker after_tick.1.0 after_tick.1.1)
tick_secures_example =
    tick_secures slow_broker quiet_input default_config (8 ∷ 9 ∷ []) (8 ∷ 9 ∷ []) fresh
      (whole 93000) refl refl (λ e. halt_hard-ne_continue (sym tick_halts ∙ e))

slow_broker-IsUp : IsUp slow_broker
slow_broker-IsUp = record { cancels = λ w. refl; closes = λ w. refl; reads = λ w. refl }

tick_answers_example :
    (after_tick.0
      ≡ some
          (tick_verdict slow_broker
            (whole 93000)
            quiet_input
            default_config
            (8 ∷ 9 ∷ [])
            fresh).action)
    × IsAnswered slow_broker after_tick.1.0 after_tick.1.1
tick_answers_example =
    tick_answers slow_broker quiet_input default_config (8 ∷ 9 ∷ []) (8 ∷ 9 ∷ []) fresh
      (whole 93000) slow_broker-IsUp refl refl (λ e. halt_hard-ne_continue (sym tick_halts ∙ e))

abbrev halted : SystemState
halted = latch_breach drawdown_guard fresh

tick_keeps_halt_example :
    is_halted (tick slow_broker quiet_input default_config [] halted).1.1 ≡ true
tick_keeps_halt_example = tick_keeps_halt slow_broker quiet_input default_config [] halted refl
