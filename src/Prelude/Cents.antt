-- ===== src/Prelude/Cents.antt =====
-- Python's `round(x, 2)` on decimals: to the nearest cent, a tie to the even one.
use Prim.Native.Nat.{ℕ, ◌+◌, ◌*◌, ◌/◌, ◌%◌, ◌≤◌, suc}
use mathlib.Core.Path.{◌≡◌, refl}
use native.Mathlib.Omega.{arith}
use glassbox_ai_quant.Prelude.Tests.{ltb, if◌then◌else◌}
use glassbox_ai_quant.Prelude.Int.{pos, negsuc, ◌+ℤ◌, neg, ◌≤ℤ◌, int_laws}
use glassbox_ai_quant.Prelude.Decimal.{Decimal}

-- Millionths in a cent.
abbrev pub cent : ℕ
cent = 10000

unfoldable pub near : ℕ → ℕ
near n =
    let q = n / cent in
    let r = n % cent in
    if ltb (r + r) cent
    then q * cent
    else if ltb cent (r + r)
    then (q + 1) * cent
    else (q + q % 2) * cent

-- `round(x, 2)`
unfoldable pub round_cents : Decimal → Decimal
unfolding near
round_cents (pos n) = pos (near n)
round_cents (negsuc n) = neg (pos (near (suc n)))

near-close : (n : ℕ) → (near n ≤ n + 5000) × (n ≤ near n + 5000)
unfolding near
near-close n = (ground arith, ground arith)

-- Rounding moves by half a cent at most.
pub round_cents-le : (x : Decimal) → round_cents x ≤ℤ x +ℤ pos 5000
unfolding round_cents
round_cents-le (pos n) = omega (int_laws, near-close n)
round_cents-le (negsuc n) = omega (int_laws, near-close (suc n))

pub le-round_cents : (x : Decimal) → x ≤ℤ round_cents x +ℤ pos 5000
unfolding round_cents
le-round_cents (pos n) = omega (int_laws, near-close n)
le-round_cents (negsuc n) = omega (int_laws, near-close (suc n))

-- Halves of a cent go to the even cent, below zero as above it.
round_cents_runs :
    (round_cents (pos 1125000) ≡ pos 1120000)
    × (round_cents (neg (pos 1135000)) ≡ neg (pos 1140000))
unfolding round_cents neg
round_cents_runs = (refl, refl)

near_mono : (m n : ℕ) → m ≤ n → near m ≤ near n
unfolding near
near_mono m n h = ground arith

pub round_cents_mono : (x y : Decimal) → x ≤ℤ y → round_cents x ≤ℤ round_cents y
unfolding round_cents
round_cents_mono (pos m) (pos n) h = omega (arith, near_mono m n (omega arith))
round_cents_mono (pos m) (negsuc n) h = absurd (omega arith)
round_cents_mono (negsuc m) (pos n) h = omega int_laws
round_cents_mono (negsuc m) (negsuc n) h = omega (int_laws, near_mono (suc n) (suc m) (omega arith))
