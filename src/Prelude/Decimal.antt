-- ===== src/Prelude/Decimal.antt =====
-- Python's floats as decimals with six places: an integer count of millionths. Sums, differences,
-- comparisons and multiples by an integer are exact; a product or a quotient of two decimals is
-- rounded toward minus infinity to a millionth. There is no infinity and no NaN.
use Prim.Native.Nat.{ℕ, ◌*◌}
use mathlib.Core.Path.{◌≡◌, refl}
use glassbox_ai_quant.Prelude.Int.{ℤ, pos, ◌*ℤ◌, floor_div}

abbrev pub Decimal : Type 0
Decimal = ℤ

-- Millionths in one.
abbrev pub scale : ℕ
scale = 1000000

-- A whole number as a decimal, `float(n)`.
abbrev pub whole : ℕ → Decimal
whole n = pos (n * scale)

-- `a * b`
unfoldable pub times : Decimal → Decimal → Decimal
unfolding ◌*ℤ◌ floor_div
times a b = floor_div (a *ℤ b) (pos scale)

-- `a / b`. By 0 it is 0; Python raises, and each use says what it does there.
unfoldable pub over : Decimal → Decimal → Decimal
unfolding ◌*ℤ◌ floor_div
over a b = floor_div (a *ℤ pos scale) b

-- `a * (p / 100)`, as the code writes a percentage of an amount.
unfoldable pub percent_of : Decimal → Decimal → Decimal
unfolding times over
percent_of p a = times a (over p (whole 100))

over_runs : over (whole 1) (whole 8) ≡ pos 125000
unfolding over
over_runs = refl

percent_of_runs : percent_of (pos 1500000) (whole 10000) ≡ whole 150
unfolding percent_of
percent_of_runs = refl
