-- ===== src/Breaker/Storm.antt =====
-- What the breaker of glassbox/execution/breaker.py guarantees over a series of calls.
use glassbox_ai_quant.Prelude.{
  length, ◌+◌, ◌<◌, ◌≡◌, refl, ap, ◌≢◌, Option, none, some, List, [], ◌∷◌, arith,
}
use glassbox_ai_quant.Prelude.Int.{◌-ℤ◌, ◌≤ℤ◌, ◌<ℤ◌}
use glassbox_ai_quant.Prelude.Decimal.{Decimal}
use glassbox_ai_quant.Breaker.{
  closed, open_circuit, CircuitBreaker, CallResult, rejected, raised, returned, call,
}

-- A closed breaker has seen fewer failures in a row than its threshold; any other has seen some.
pub record IsSound (b : CircuitBreaker) : Type 0 where
  pub threshold_pos : 0 < b.failure_threshold
  pub closed_below : b.state ≡ closed → b.failures < b.failure_threshold
  pub tripped_some : b.state ≢ closed → 0 < b.failures

-- Every call keeps the breaker sound, whatever the clock says and however the function ends: while
-- it is closed it has seen fewer failures than its threshold, which is not zero, and otherwise it
-- has seen some.
pub call-IsSound {ℓ} :
    {A : Type ℓ} (now later : Decimal) (outcome : Option A) (b : CircuitBreaker)
    → IsSound b
    → IsSound (call now later outcome b).1
unfolding call
call-IsSound now later none b h = ground arith
call-IsSound now later (some a) b h = ground arith

-- Failing calls, each at its own time.
unfoldable pub fail_at : List Decimal → CircuitBreaker → CircuitBreaker
fail_at [] b = b
fail_at (t ∷ ts) b = fail_at ts (call {A = Unit {0}} t t none b).1

abbrev pub last_of : Decimal → List Decimal → Decimal
last_of t [] = t
last_of t (u ∷ us) = last_of u us

fail_closed :
    (t : Decimal) (b : CircuitBreaker)
    → b.state ≡ closed
    → b.failures + 1 < b.failure_threshold
    → (call {A = Unit {0}} t t none b).1 ≡ record b { failures = b.failures + 1 }
unfolding call
fail_closed t b c h = ground arith

fail_last :
    (t : Decimal) (b : CircuitBreaker)
    → b.state ≡ closed
    → b.failures + 1 ≡ b.failure_threshold
    → (call {A = Unit {0}} t t none b).1
      ≡ record b { failures = b.failures + 1; state = open_circuit; opened_at = t }
unfolding call
fail_last t b c h = ground arith

fail_at_closed :
    (t : Decimal) (ts : List Decimal) (b : CircuitBreaker)
    → b.state ≡ closed
    → b.failures + 1 < b.failure_threshold
    → fail_at (t ∷ ts) b ≡ fail_at ts (record b { failures = b.failures + 1 })
unfolding fail_at
fail_at_closed t ts b c h = ap (fail_at ts) (fail_closed t b c h)

fail_at_last :
    (t : Decimal) (b : CircuitBreaker)
    → b.state ≡ closed
    → b.failures + 1 ≡ b.failure_threshold
    → fail_at (t ∷ []) b
      ≡ record b { failures = b.failures + 1; state = open_circuit; opened_at = t }
unfolding fail_at
fail_at_last t b c h = fail_last t b c h

-- Open since the time `t`, with the cooldown of `b`.
abbrev pub IsTripped : Decimal → CircuitBreaker → CircuitBreaker → Type 0
IsTripped t b b' =
    (b'.state ≡ open_circuit) × (b'.opened_at ≡ t) × (b'.cooldown_seconds ≡ b.cooldown_seconds)

-- From a closed breaker, as many failures as are left to the threshold open it, at the time of the
-- last of them and with its cooldown unchanged.
pub fail_at-opens :
    (t : Decimal) (ts : List Decimal) (b : CircuitBreaker)
    → b.state ≡ closed
    → b.failures + length (t ∷ ts) ≡ b.failure_threshold
    → IsTripped (last_of t ts) b (fail_at (t ∷ ts) b)
fail_at-opens t [] b c h = rw (fail_at_last t b c (omega arith)) (refl, refl, refl)
fail_at-opens t (u ∷ us) b c h =
    rw (fail_at_closed t (u ∷ us) b c (omega arith))
      (fail_at-opens u us (record b { failures = b.failures + 1 }) c (omega arith))

-- Attempted calls, each with the time and what the function would do.
pub attempt {ℓ} :
    {A : Type ℓ} → List (Decimal × Option A) → CircuitBreaker → List (CallResult A) × CircuitBreaker
attempt [] b = ([], b)
attempt ((t, o) ∷ rest) b =
    let (r, b') = call t t o b in let (rs, b'') = attempt rest b' in (r ∷ rs, b'')

-- All of them before the cooldown is over.
abbrev pub InCooldown {ℓ} : {A : Type ℓ} → CircuitBreaker → List (Decimal × Option A) → Type 0
InCooldown b [] = Unit
InCooldown b ((t, o) ∷ rest) = (t -ℤ b.opened_at <ℤ b.cooldown_seconds) × InCooldown b rest

abbrev pub AllRejected {ℓ} : {A : Type ℓ} → List (CallResult A) → Type ℓ
AllRejected [] = Unit
AllRejected (r ∷ rs) = (r ≡ rejected) × AllRejected rs

call_rejected {ℓ} :
    {A : Type ℓ} (t : Decimal) (o : Option A) (b : CircuitBreaker)
    → b.state ≡ open_circuit
    → t -ℤ b.opened_at <ℤ b.cooldown_seconds
    → call t t o b ≡ (rejected, b)
unfolding call
call_rejected t o b e h = ground arith

-- While the cooldown lasts an open breaker refuses every call of a series, and it stays as it is.
pub attempt-rejected {ℓ} :
    {A : Type ℓ} (calls : List (Decimal × Option A)) (b : CircuitBreaker)
    → b.state ≡ open_circuit
    → InCooldown b calls
    → AllRejected (attempt calls b).0 × ((attempt calls b).1 ≡ b)
unfolding attempt
attempt-rejected [] b e h = (tt, refl)
attempt-rejected ((t, o) ∷ rest) b e h =
    rw (call_rejected t o b e h.0)
      (let (rs, same) = attempt-rejected rest b e h.1 in ((refl, rs), same))

-- After the cooldown the next call of an open breaker is a probe: it runs, a success closes the
-- breaker and clears its count, and a failure adds to the count and opens it again at the time of
-- the failure.
pub probe_decides {ℓ} :
    {A : Type ℓ} (now later : Decimal) (a : A) (b : CircuitBreaker)
    → b.state ≡ open_circuit
    → b.cooldown_seconds ≤ℤ now -ℤ b.opened_at
    → (call now later (some a) b ≡ (returned a, record b { failures = 0; state = closed }))
      × (call {A = A} now later none b ≡ (
        raised,
        record b { failures = b.failures + 1; state = open_circuit; opened_at = later },
      ))
unfolding call
probe_decides now later a b e h = (ground arith, ground arith)
