-- ===== src/Prelude/Rounding.antt =====
-- Order laws of the rounded product and quotient of decimals.
use native.Mathlib.Nat.{
  mul-le-mul, mul-le-mul_right, mul-div_cancel_left, div-lt_iff_lt-mul, div-mul-le_self,
  div-le_of_le-mul, lt-mul-div-succ,
}
use glassbox_ai_quant.Prelude.{ℕ, suc, ◌+◌, ◌-◌, ◌*◌, ◌/◌, ◌≤◌, ◌<◌, ◌≡◌, ap, arith}
use glassbox_ai_quant.Prelude.Int.{
  ℤ, pos, negsuc, pos_part, neg_part, ◌*ℤ◌, ◌≤ℤ◌, ◌<ℤ◌, floor_div, *ℤ_comm,
}
use glassbox_ai_quant.Prelude.Decimal.{scale, whole, times, over}

div_mono : (a b d : ℕ) → a ≤ b → a / d ≤ b / d
div_mono a b d h = grind arith

-- `a // d` grows with `a`.
pub floor_div_mono : (a b : ℤ) (d : ℕ) → 0 < d → a ≤ℤ b → floor_div a (pos d) ≤ℤ floor_div b (pos d)
unfolding floor_div
floor_div_mono (pos a) (pos b) d p h = omega (arith, div_mono a b d (omega arith))
floor_div_mono (pos a) (negsuc b) d p h = absurd (omega arith)
floor_div_mono (negsuc a) (pos b) d p h = ground arith
floor_div_mono (negsuc a) (negsuc b) d p h = ground (arith, div_mono b a d)

-- `(a // d) * d` is at most `a`.
pub floor_div-mul-le : (a : ℤ) (d : ℕ) → 0 < d → floor_div a (pos d) *ℤ pos d ≤ℤ a
unfolding floor_div ◌*ℤ◌
floor_div-mul-le (pos a) d p = ground (arith, div-mul-le_self a d)
floor_div-mul-le (negsuc a) d p = ground (arith, lt-mul-div-succ a p)

-- A multiple on the right by a natural number, part by part.
pub parts_scaled :
    (a : ℤ) (k : ℕ)
    → (pos_part (a *ℤ pos k) ≡ pos_part a * k) × (neg_part (a *ℤ pos k) ≡ neg_part a * k)
unfolding ◌*ℤ◌
parts_scaled (pos n) k = (ground arith, ground arith)
parts_scaled (negsuc n) k = (ground arith, ground arith)

pub scaled_mono : (a b : ℤ) (k : ℕ) → a ≤ℤ b → a *ℤ pos k ≤ℤ b *ℤ pos k
scaled_mono a b k h = omega (
  arith,
  parts_scaled a k,
  parts_scaled b k,
  mul-le-mul_right {m = pos_part a + neg_part b} {n = pos_part b + neg_part a} k h,
)

-- A quotient by a positive decimal grows with its numerator.
pub over_mono : (a b d : ℤ) → pos 0 <ℤ d → a ≤ℤ b → over a d ≤ℤ over b d
unfolding over
over_mono a b (pos d) p h =
    floor_div_mono (a *ℤ pos scale) (b *ℤ pos scale) d (omega arith) (scaled_mono a b scale h)
over_mono a b (negsuc d) p h = absurd (omega arith)

-- A product with a decimal that is not negative grows with the other factor.
pub times_mono_left : (a b c : ℤ) → pos 0 ≤ℤ c → a ≤ℤ b → times a c ≤ℤ times b c
unfolding times
times_mono_left a b (pos c) p h =
    floor_div_mono (a *ℤ pos c) (b *ℤ pos c) scale (omega arith) (scaled_mono a b c h)
times_mono_left a b (negsuc c) p h = absurd (omega arith)

pub times_nonneg : (a b : ℤ) → pos 0 ≤ℤ a → pos 0 ≤ℤ b → pos 0 ≤ℤ times a b
unfolding times floor_div ◌*ℤ◌
times_nonneg (pos a) (pos b) p q = ground arith
times_nonneg (negsuc a) b p q = absurd (omega arith)
times_nonneg (pos a) (negsuc b) p q = absurd (omega arith)

pub over_nonneg : (a b : ℤ) → pos 0 ≤ℤ a → pos 0 ≤ℤ b → pos 0 ≤ℤ over a b
unfolding over floor_div ◌*ℤ◌
over_nonneg (pos a) (pos b) p q = ground arith
over_nonneg (negsuc a) b p q = absurd (omega arith)
over_nonneg (pos a) (negsuc b) p q = absurd (omega arith)

-- A product with a fraction is at most the other factor.
pub times-le : (a b : ℤ) → pos 0 ≤ℤ a → pos 0 ≤ℤ b → b ≤ℤ whole 1 → times a b ≤ℤ a
unfolding times floor_div ◌*ℤ◌
times-le (pos a) (pos b) p q h = ground (
  arith,
  div-le_of_le-mul scale {m = a * b} {n = a} (
      omega
        (arith, mul-le-mul {n₁ = a} {m₁ = b} {n₂ = a} {m₂ = scale} (omega arith) (omega arith))),
)
times-le (negsuc a) b p q h = absurd (omega arith)
times-le (pos a) (negsuc b) p q h = absurd (omega arith)

-- The quotient of a part by the whole is at most one.
pub over-le_one : (a b : ℤ) → pos 0 ≤ℤ a → a ≤ℤ b → pos 0 <ℤ b → over a b ≤ℤ whole 1
unfolding over floor_div ◌*ℤ◌
over-le_one (pos a) (pos b) p q r =
    ground (arith, div-le_of_le-mul b {m = a * scale} {n = scale} (omega arith))
over-le_one (negsuc a) b p q r = absurd (omega arith)
over-le_one (pos a) (negsuc b) p q r = absurd (omega arith)

pub times_comm : (a b : ℤ) → times a b ≡ times b a
unfolding times
times_comm a b = ap (λ (x : ℤ). floor_div x (pos scale)) (*ℤ_comm a b)

pub times_mono_right : (a b c : ℤ) → pos 0 ≤ℤ a → b ≤ℤ c → times a b ≤ℤ times a c
times_mono_right a b c p h = rw (times_comm a b, times_comm a c) (times_mono_left b c a p h)

pub over_self : (a : ℤ) → pos 0 <ℤ a → over a a ≡ whole 1
unfolding over floor_div ◌*ℤ◌
over_self (pos a) p = ground (arith, mul-div_cancel_left scale {n = a} (omega arith))
over_self (negsuc a) p = absurd (omega arith)

-- The quotient of a larger by a smaller is at least one.
pub one-le-over : (a b : ℤ) → pos 0 <ℤ b → b ≤ℤ a → whole 1 ≤ℤ over a b
one-le-over a b p h =
    omega (arith, ap pos_part (over_self b p), ap neg_part (over_self b p), over_mono b a b p h)

pub times-one : (a : ℤ) → times a (whole 1) ≡ a
unfolding times floor_div ◌*ℤ◌
times-one (pos a) = ground arith
times-one (negsuc a) = ground arith

-- A product with at least one is at least the other factor.
pub le-times : (a b : ℤ) → pos 0 ≤ℤ a → whole 1 ≤ℤ b → a ≤ℤ times a b
le-times a b p h = (rw (times-one a) at (times_mono_right a (whole 1) b p h))

-- A quotient of what is not above zero by at least one is not smaller.
pub le-over : (a b : ℤ) → a ≤ℤ pos 0 → whole 1 ≤ℤ b → a ≤ℤ over a b
unfolding over floor_div ◌*ℤ◌
le-over (pos a) (pos b) p h = ground arith
le-over (negsuc a) (pos b) p h =
    let wide =
      mul-le-mul {n₁ = suc a} {m₁ = scale} {n₂ = suc a} {m₂ = b} (omega arith) (omega arith) in
    ground (
      arith,
      (div-lt_iff_lt-mul {k = b} {x = suc a * scale - 1} {y = suc a} (omega arith)).1
          (omega (arith, wide)),
    )
le-over a (negsuc b) p h = absurd (omega arith)
