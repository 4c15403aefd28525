-- ===== src/Portfolio/Totals.antt =====
-- What the snapshot of glassbox/portfolio.py adds up.
use glassbox_ai_quant.Prelude.{
  ◌==◌, if◌then◌else◌, ==_iff, Bool-cases, length, Dict, lookup, lookup-insert, ℕ, ◌+◌, ◌≡◌, refl,
  sym, ap, ◌∙◌, inl, inr, Bool, true, false, Option, some, List, [], ◌∷◌, arith,
}
use glassbox_ai_quant.Prelude.Int.{ℤ, pos, ◌+ℤ◌, int_laws}
use glassbox_ai_quant.Prelude.Decimal.{Decimal}
use glassbox_ai_quant.Portfolio.{
  Greeks, PortfolioState, get_or, HeldRow, add_row, empty_portfolio, snapshot_from, snapshot,
}

-- The sum of the maximum losses, and the number of rows of a name.
pub total_loss : List HeldRow → Decimal
total_loss [] = pos 0
total_loss (r ∷ rs) = r.max_loss +ℤ total_loss rs

pub rows_of : ℕ → List HeldRow → ℕ
rows_of u [] = 0
rows_of u (r ∷ rs) = let rest = rows_of u rs in if u == r.underlying then rest + 1 else rest

-- How many positions a portfolio has in a name.
abbrev pub count_in : ℕ → PortfolioState → ℕ
count_in u p = get_or (lookup u p.positions_by_underlying) 0

+ℤ_assoc : (a b c : ℤ) → a +ℤ b +ℤ c ≡ a +ℤ (b +ℤ c)
+ℤ_assoc a b c = omega int_laws

+ℤ_zero : (a : ℤ) → a +ℤ pos 0 ≡ a
+ℤ_zero a = omega int_laws

zero_+ℤ : (a : ℤ) → pos 0 +ℤ a ≡ a
zero_+ℤ a = omega int_laws

heat_lem :
    (g : Dict Greeks) (s : PortfolioState) (rows : List HeldRow)
    → (snapshot_from g s rows).heat ≡ s.heat +ℤ total_loss rows
unfolding snapshot_from total_loss
heat_lem g s [] = sym (+ℤ_zero s.heat)
heat_lem g s (r ∷ rs) = heat_lem g (add_row g s r) rs ∙ +ℤ_assoc s.heat r.max_loss (total_loss rs)

number_lem :
    (g : Dict Greeks) (s : PortfolioState) (rows : List HeldRow)
    → (snapshot_from g s rows).open_position_count ≡ s.open_position_count + length rows
unfolding snapshot_from
number_lem g s [] = omega arith
number_lem g s (r ∷ rs) = omega (arith, number_lem g (add_row g s r) rs)

get_or_if :
    (b : Bool) (v : ℕ) (o : Option ℕ)
    → get_or (if b then some v else o) 0 ≡ (if b then v else get_or o 0)
get_or_if true v o = refl
get_or_if false v o = refl

count_step :
    (u : ℕ) (g : Dict Greeks) (s : PortfolioState) (r : HeldRow)
    → count_in u (add_row g s r)
      ≡ (if u == r.underlying then count_in r.underlying s + 1 else count_in u s)
unfolding add_row
count_step u g s r =
    ap (λ o. get_or o 0)
      (lookup-insert r.underlying u (count_in r.underlying s + 1) s.positions_by_underlying)
    ∙ get_or_if (u == r.underlying) (count_in r.underlying s + 1)
        (lookup u s.positions_by_underlying)

count_lem :
    (u : ℕ) (g : Dict Greeks) (s : PortfolioState) (rows : List HeldRow)
    → count_in u (snapshot_from g s rows) ≡ count_in u s + rows_of u rows
unfolding snapshot_from rows_of
count_lem u g s [] = omega arith
count_lem u g s (r ∷ rs) = elim (Bool-cases (u == r.underlying)) [
  | inl e ↦
      count_lem u g (add_row g s r) rs
      ∙ rw (count_step u g s r, e, sym ((==_iff u r.underlying).0 e)) (omega arith)
  | inr e ↦ count_lem u g (add_row g s r) rs ∙ rw (count_step u g s r, e) refl
]

-- The heat of a snapshot is the sum of the maximum losses of all rows, its count of open positions is
-- the number of rows, and its count for a name is the number of rows with that name.
pub snapshot_exact :
    (rows : List HeldRow) (g : Dict Greeks)
    → ((snapshot rows g).heat ≡ total_loss rows)
      × ((snapshot rows g).open_position_count ≡ length rows)
      × ((u : ℕ) → count_in u (snapshot rows g) ≡ rows_of u rows)
unfolding snapshot
snapshot_exact rows g = (
  heat_lem g empty_portfolio rows ∙ zero_+ℤ (total_loss rows),
  number_lem g empty_portfolio rows ∙ omega arith,
  λ u. count_lem u g empty_portfolio rows ∙ omega arith,
)
