-- ===== src/Repair/Plans.antt =====
-- The plan of glassbox/repair.py, and the exits that it finds.
use glassbox_ai_quant.Prelude.{
  Bool-cases, keep_if, IsIn, Dict, ℕ, ◌≡◌, refl, ◌↔◌, inl, inr, Bool, true, some, List, [], ◌∷◌,
  map,
}
use glassbox_ai_quant.Prelude.Int.{ℤ, pos, floor_div}
use glassbox_ai_quant.Prelude.Decimal.{Decimal}
use glassbox_ai_quant.Store.{Position}
use glassbox_ai_quant.Execution.Lifecycle.Outcomes.{realized_pnl}
use glassbox_ai_quant.Repair.{
  Fill, Verdict, resolved, Resolution, judge, candidates, plan, is_resolved,
}
use glassbox_ai_quant.Clock.{Instant}
use glassbox_ai_quant.Store.Rows.{is_live}
use glassbox_ai_quant.Repair.Explained.{IsExplained, exit_cost, judge_exact, judge_price}

-- One resolution for each position, in order, of which something holds.
abbrev pub ForEach : (Position → Resolution → Type 0) → List Position → List Resolution → Type 0
ForEach P [] [] = Unit
ForEach P (r ∷ rows) (x ∷ xs) = P r x × ForEach P rows xs
ForEach P _ _ = ⊥

abbrev to_resolution : (Position → Verdict) → Position → Resolution
to_resolution v r = record { position_id = r.position_id; verdict = v r }

for_each :
    (P : Position → Resolution → Type 0) (v : Position → Verdict)
    → ((r : Position) → P r (to_resolution v r))
    → (rows : List Position) → ForEach P rows (map (to_resolution v) rows)
for_each P v h [] = tt
for_each P v h (r ∷ rows) = (h r, for_each P v h rows)

abbrev pub live : List Position → List Position
live rows = keep_if (λ (r : Position). is_live r.status) rows

-- `plan` has one resolution for each live position, in order and under its id, which resolves it exactly
-- if it is explained: the broker holds none of its legs, no leg is claimed twice by the live positions,
-- it has one contract at least, and the fills since it opened close each leg to the last contract.
pub resolved_exact :
    (isoformat : Instant → List ℕ) (rows : List Position) (broker : Dict ℤ) (fills : List Fill)
    → ForEach
        (λ r x.
          (x.position_id ≡ r.position_id)
          × ((is_resolved x.verdict ≡ true) ↔ IsExplained isoformat (live rows) broker fills r))
        (live rows)
        (plan isoformat rows broker fills)
unfolding plan candidates
resolved_exact isoformat rows broker fills =
    for_each _ (λ r. judge isoformat (live rows) broker fills r)
      (λ r. (refl, judge_exact isoformat (live rows) broker fills r)) (live rows)

planned :
    (p : Position → Bool) (v : Position → Verdict) (row : Position) (rows : List Position)
    → IsIn row rows
    → p row ≡ true
    → IsIn (to_resolution v row) (map (to_resolution v) (keep_if p rows))
planned p v row [] h k = absurd h
planned p v row (r ∷ rows) (inl e) k = rw (e, k) (inl refl)
planned p v row (r ∷ rows) (inr h) k = elim (Bool-cases (p r)) [
  | inl q ↦ rw q (inr (planned p v row rows h k))
  | inr q ↦ rw q (planned p v row rows h k)
]

-- `plan` resolves a live position that is explained at the cost of its exit per contract, where buying
-- back its short legs costs what the fills change hands for and selling its long legs brings that in;
-- the result is what the lifecycle books for a close that fills at that price.
pub resolved_price :
    (isoformat : Instant → List ℕ) (rows : List Position) (broker : Dict ℤ) (fills : List Fill)
    (row : Position)
    → IsIn row rows
    → is_live row.status ≡ true
    → IsExplained isoformat (live rows) broker fills row
    → let price = floor_div (exit_cost isoformat row fills row.structure.legs) (pos row.qty) in
      (realized : Decimal) × (matched : List Fill) × IsIn
        (record { position_id = row.position_id; verdict = resolved price realized matched })
        (plan isoformat rows broker fills)
      × (realized_pnl row (some price) ≡ some realized)
unfolding plan candidates
resolved_price isoformat rows broker fills row h k x =
    let (realized, matched, same, booked) = judge_price isoformat (live rows) broker fills row x in
    let v = judge isoformat (live rows) broker fills in
    (
      realized,
      matched,
      rw (← same) (planned (λ (r : Position). is_live r.status) v row rows h k),
      booked,
    )
