-- ===== src/Prelude/Int.antt =====
-- Signed integers over the native numbers, under the library's names (its ℤ stands on the unary ℕ).
-- Sums and orders go through the two parts of an integer, which are numbers that `omega` reads.
use Prim.Native.Nat.{ℕ, suc, ◌+◌, ◌-◌, ◌*◌, ◌/◌, ◌≤◌, ◌<◌}
use mathlib.Core.Path.{◌≡◌, refl}
use mathlib.Core.Bool.{Bool, false}
use mathlib.Core.Logic.{◌↔◌}
use native.Mathlib.Omega.{arith}
use glassbox_ai_quant.Prelude.Tests.{ltb, leb, ◌==◌, if◌then◌else◌}

-- `negsuc n` is -(n + 1).
pub data ℤ : Type 0 where
  pos : ℕ → ℤ
  negsuc : ℕ → ℤ

abbrev pub pos_part : ℤ → ℕ
pos_part (pos n) = n
pos_part (negsuc n) = 0

abbrev pub neg_part : ℤ → ℕ
neg_part (pos n) = 0
neg_part (negsuc n) = suc n

-- a - b, as an integer.
abbrev pub sub_ℕ : ℕ → ℕ → ℤ
sub_ℕ a b = if leb b a then pos (a - b) else negsuc (b - a - 1)

infixl 65 ◌+ℤ◌ ◌-ℤ◌
infixl 70 ◌*ℤ◌
infix 50 ◌≤ℤ◌ ◌<ℤ◌ ◌==ℤ◌
unfoldable pub ◌+ℤ◌ : ℤ → ℤ → ℤ
a +ℤ b = sub_ℕ (pos_part a + pos_part b) (neg_part a + neg_part b)

unfoldable pub ◌-ℤ◌ : ℤ → ℤ → ℤ
a -ℤ b = sub_ℕ (pos_part a + neg_part b) (neg_part a + pos_part b)

unfoldable pub ◌*ℤ◌ : ℤ → ℤ → ℤ
a *ℤ b =
    sub_ℕ (pos_part a * pos_part b + neg_part a * neg_part b)
      (pos_part a * neg_part b + neg_part a * pos_part b)

-- `-a`
unfoldable pub neg : ℤ → ℤ
neg a = sub_ℕ (neg_part a) (pos_part a)

-- `abs(a)`
unfoldable pub abs : ℤ → ℤ
abs a = pos (pos_part a + neg_part a)

abbrev pub ◌≤ℤ◌ : ℤ → ℤ → Type 0
a ≤ℤ b = pos_part a + neg_part b ≤ pos_part b + neg_part a

abbrev pub ◌<ℤ◌ : ℤ → ℤ → Type 0
a <ℤ b = pos_part a + neg_part b < pos_part b + neg_part a

abbrev pub ltb_ℤ : ℤ → ℤ → Bool
ltb_ℤ a b = ltb (pos_part a + neg_part b) (pos_part b + neg_part a)

abbrev pub leb_ℤ : ℤ → ℤ → Bool
leb_ℤ a b = leb (pos_part a + neg_part b) (pos_part b + neg_part a)

abbrev pub ◌==ℤ◌ : ℤ → ℤ → Bool
a ==ℤ b = pos_part a + neg_part b == pos_part b + neg_part a

-- `min(a, b)` and `max(a, b)`
unfoldable pub min_ℤ : ℤ → ℤ → ℤ
min_ℤ a b = if ltb_ℤ b a then b else a

unfoldable pub max_ℤ : ℤ → ℤ → ℤ
max_ℤ a b = if ltb_ℤ a b then b else a

-- `a // b` rounds toward minus infinity. By 0 it is 0 here; Python raises, and so does what calls it.
unfoldable pub floor_div : ℤ → ℤ → ℤ
floor_div (pos a) (pos b) = pos (a / b)
floor_div (negsuc a) (pos b) = if b == 0 then pos 0 else negsuc (a / b)
floor_div (pos a) (negsuc b) = if a == 0 then pos 0 else negsuc ((a - 1) / suc b)
floor_div (negsuc a) (negsuc b) = pos (suc a / suc b)

pub +ℤ_parts :
    (a b : ℤ)
    → pos_part (a +ℤ b) + neg_part a + neg_part b ≡ neg_part (a +ℤ b) + pos_part a + pos_part b
unfolding ◌+ℤ◌
+ℤ_parts a b = ground arith

pub -ℤ_parts :
    (a b : ℤ)
    → pos_part (a -ℤ b) + neg_part a + pos_part b ≡ neg_part (a -ℤ b) + pos_part a + neg_part b
unfolding ◌-ℤ◌
-ℤ_parts a b = ground arith

pub neg_parts : (a : ℤ) → pos_part (neg a) + pos_part a ≡ neg_part (neg a) + neg_part a
unfolding neg
neg_parts a = ground arith

pub abs_parts : (a : ℤ) → (pos_part (abs a) ≡ pos_part a + neg_part a) × (neg_part (abs a) ≡ 0)
unfolding abs
abs_parts a = (refl, refl)

-- One of the two parts of an integer is 0.
pub parts_exclusive : (a : ℤ) → pos_part a * neg_part a ≡ 0
parts_exclusive (pos n) = omega arith
parts_exclusive (negsuc n) = omega arith

pub *ℤ_parts :
    (a b : ℤ)
    → pos_part (a *ℤ b) + (pos_part a * neg_part b + neg_part a * pos_part b)
      ≡ neg_part (a *ℤ b) + (pos_part a * pos_part b + neg_part a * neg_part b)
unfolding ◌*ℤ◌
*ℤ_parts a b = ground arith

pub eq_of_parts : (a b : ℤ) → pos_part a + neg_part b ≡ pos_part b + neg_part a → a ≡ b
eq_of_parts a b h = ground arith

pub min_ℤ-le_left : (a b : ℤ) → min_ℤ a b ≤ℤ a
unfolding min_ℤ
min_ℤ-le_left a b = ground arith

pub min_ℤ-le_right : (a b : ℤ) → min_ℤ a b ≤ℤ b
unfolding min_ℤ
min_ℤ-le_right a b = ground arith

pub le-min_ℤ : (a b c : ℤ) → c ≤ℤ a → c ≤ℤ b → c ≤ℤ min_ℤ a b
unfolding min_ℤ
le-min_ℤ a b c h k = ground arith

pub max_ℤ-ge_left : (a b : ℤ) → a ≤ℤ max_ℤ a b
unfolding max_ℤ
max_ℤ-ge_left a b = ground arith

pub max_ℤ-ge_right : (a b : ℤ) → b ≤ℤ max_ℤ a b
unfolding max_ℤ
max_ℤ-ge_right a b = ground arith

pub max_ℤ-le : (a b c : ℤ) → a ≤ℤ c → b ≤ℤ c → max_ℤ a b ≤ℤ c
unfolding max_ℤ
max_ℤ-le a b c h k = ground arith

pub ruleset int_laws = (arith, +ℤ_parts, -ℤ_parts, neg_parts, eq_of_parts)

-- A multiple by a natural number, part by part.
pub scaled_parts :
    (k : ℕ) (a : ℤ)
    → (pos_part (pos k *ℤ a) ≡ k * pos_part a) × (neg_part (pos k *ℤ a) ≡ k * neg_part a)
unfolding ◌*ℤ◌
scaled_parts k (pos n) = (ground arith, ground arith)
scaled_parts k (negsuc n) = (ground arith, ground arith)

pub pos_part-eq-zero : (a : ℤ) → a ≤ℤ pos 0 → pos_part a ≡ 0
pos_part-eq-zero a h = ground arith

pub neg_part-eq-zero : (a : ℤ) → pos 0 ≤ℤ a → neg_part a ≡ 0
neg_part-eq-zero a h = ground arith

pub *ℤ_comm : (a b : ℤ) → a *ℤ b ≡ b *ℤ a
*ℤ_comm a b = omega (arith, *ℤ_parts a b, *ℤ_parts b a, eq_of_parts (a *ℤ b) (b *ℤ a))

pub min_ℤ_mono : (a b c d : ℤ) → a ≤ℤ c → b ≤ℤ d → min_ℤ a b ≤ℤ min_ℤ c d
min_ℤ_mono a b c d h k =
    le-min_ℤ c d (min_ℤ a b) (omega (arith, min_ℤ-le_left a b)) (omega (arith, min_ℤ-le_right a b))

pub max_ℤ_mono : (a b c d : ℤ) → a ≤ℤ c → b ≤ℤ d → max_ℤ a b ≤ℤ max_ℤ c d
max_ℤ_mono a b c d h k =
    max_ℤ-le a b (max_ℤ c d) (omega (arith, max_ℤ-ge_left c d)) (omega (arith, max_ℤ-ge_right c d))

-- What a failed test says.
pub ltb_ℤ-false : (a b : ℤ) → (ltb_ℤ a b ≡ false) ↔ (b ≤ℤ a)
ltb_ℤ-false a b = (λ h. ground arith, λ h. ground arith)

pub leb_ℤ-false : (a b : ℤ) → (leb_ℤ a b ≡ false) ↔ (b <ℤ a)
leb_ℤ-false a b = (λ h. ground arith, λ h. ground arith)
