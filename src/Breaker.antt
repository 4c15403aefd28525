-- ===== src/Breaker.antt =====
-- glassbox/execution/breaker.py: the circuit breaker. The clock's readings are arguments: `now` where
-- a call begins, `later` where its failure is recorded. What the protected function does is an
-- argument too, `none` where it raises.
pub mod Storm
use glassbox_ai_quant.Prelude.{
  leb, if◌then◌else◌, ℕ, ◌+◌, Bool, true, false, ◌&&◌, ◌||◌, Option, none, some,
}
use glassbox_ai_quant.Prelude.Int.{pos, ◌-ℤ◌, leb_ℤ}
use glassbox_ai_quant.Prelude.Decimal.{Decimal}

pub data BreakerState : Type 0 where
  closed open_circuit half_open : BreakerState

pub record CircuitBreaker : Type 0 where
  pub failure_threshold : ℕ
  pub cooldown_seconds : Decimal
  pub state : BreakerState
  pub failures : ℕ
  pub opened_at : Decimal

-- `CircuitBreaker(...)`
abbrev pub new_breaker : ℕ → Decimal → CircuitBreaker
new_breaker threshold cooldown = record {
  failure_threshold = threshold;
  cooldown_seconds = cooldown;
  state = closed;
  failures = 0;
  opened_at = pos 0;
}

abbrev is_open : BreakerState → Bool
is_open open_circuit = true
is_open _ = false

abbrev is_half_open : BreakerState → Bool
is_half_open half_open = true
is_half_open _ = false

-- The property `state`, which moves an open breaker on once the cooldown has elapsed.
unfoldable pub refresh : Decimal → CircuitBreaker → CircuitBreaker
refresh now b =
    if is_open b.state && leb_ℤ b.cooldown_seconds (now -ℤ b.opened_at)
    then record b { state = half_open }
    else b

unfoldable pub record_success : CircuitBreaker → CircuitBreaker
record_success b = record b { failures = 0; state = closed }

unfoldable pub record_failure : Decimal → CircuitBreaker → CircuitBreaker
record_failure later b =
    if is_half_open b.state || leb b.failure_threshold (b.failures + 1)
    then record b { failures = b.failures + 1; state = open_circuit; opened_at = later }
    else record b { failures = b.failures + 1 }

-- How a call ends: refused with `BreakerOpenError`, raised by the function, or returned by it.
pub data CallResult {ℓ} (A : Type ℓ) : Type ℓ where
  rejected raised : CallResult A
  returned : A → CallResult A

module _ {ℓ} {A : Type ℓ} where
  abbrev finish : Decimal → Option A → CircuitBreaker → CallResult A × CircuitBreaker
  finish later none b = (raised, record_failure later b)
  finish later (some a) b = (returned a, record_success b)

  unfoldable pub call :
      Decimal → Decimal → Option A → CircuitBreaker → CallResult A × CircuitBreaker
  unfolding refresh record_success record_failure
  call now later outcome b =
      let b' = refresh now b in if is_open b'.state then (rejected, b') else finish later outcome b'
