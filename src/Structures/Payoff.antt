-- ===== src/Structures/Payoff.antt =====
-- What the legs of a structure are worth at expiry, written from the terms of an option and not from
-- the code: the specification against which glassbox/structures.py is proved.
use glassbox_ai_quant.Prelude.{if◌then◌else◌, ℕ, ◌+◌, ◌-◌, ◌*◌, ◌&&◌, List, [], ◌∷◌}
use glassbox_ai_quant.Prelude.Int.{ℤ, pos, ◌-ℤ◌, ◌*ℤ◌}
use glassbox_ai_quant.Prelude.Decimal.{Decimal}
use glassbox_ai_quant.Structures.{
  Right, call, put, LegSide, long, short, Leg, Structure, same_right, same_side,
}

-- One contract at the spot price `s`; `-` stops at 0, as an option's value does.
abbrev pub intrinsic : Right → ℕ → ℕ → ℕ
intrinsic call strike s = s - strike
intrinsic put strike s = strike - s

module _ (r : Right) (d : LegSide) where
  -- What the legs of one right and one side are worth together.
  unfoldable pub value_at : ℕ → List Leg → ℕ
  value_at s [] = 0
  value_at s (l ∷ ls) =
      let rest = value_at s ls in
      if same_right l.right r && same_side l.side d
      then l.ratio_qty * intrinsic r l.strike s + rest
      else rest

  -- Their strikes, each as often as its ratio says.
  unfoldable pub strike_value : List Leg → ℕ
  strike_value [] = 0
  strike_value (l ∷ ls) =
      let rest = strike_value ls in
      if same_right l.right r && same_side l.side d then l.ratio_qty * l.strike + rest else rest

-- What the long legs bring in, and what the short legs cost.
unfoldable pub received : ℕ → List Leg → ℕ
unfolding value_at
received s ls = value_at call long s ls + value_at put long s ls

unfoldable pub owed : ℕ → List Leg → ℕ
unfolding value_at
owed s ls = value_at call short s ls + value_at put short s ls

-- Profit of one spread at expiry in dollars, with 100 shares to a contract and the signed net price.
unfoldable pub profit_at : ℕ → Structure → Decimal → ℤ
unfolding received owed ◌-ℤ◌ ◌*ℤ◌
profit_at s st net = pos 100 *ℤ (pos (received s st.legs) -ℤ pos (owed s st.legs) -ℤ net)
