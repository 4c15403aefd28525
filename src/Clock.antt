-- ===== src/Clock.antt =====
-- Instants and configured times. An instant is a number of microseconds, as `datetime` counts them.
use glassbox_ai_quant.Prelude.Int.{ℤ, pos, ◌*ℤ◌}
use glassbox_ai_quant.Prelude.Decimal.{Decimal}

abbrev pub Instant : Type 0
Instant = ℤ

-- `timedelta(hours=h)`: a millionth of an hour is 3600 microseconds.
abbrev pub hours : Decimal → ℤ
hours h = pos 3600 *ℤ h

-- `timedelta(seconds=s)`: a millionth of a second is a microsecond.
abbrev pub seconds : Decimal → ℤ
seconds s = s

-- A configured deadline, by what `datetime.fromisoformat` makes of it; `empty` is the empty text. A
-- deadline that parses is taken to have an offset.
pub data IsoText : Type 0 where
  empty : IsoText
  malformed : IsoText
  instant : Instant → IsoText
