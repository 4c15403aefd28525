-- ===== src/Tests/Repairs.antt =====
-- Runs of glassbox/repair.py and of glassbox/audit.py.
use glassbox_ai_quant.Prelude.{
  ◌==◌, ==_iff, and-true, length, keep_if, IsIn, contains, ℕ, ◌+◌, ◌≡◌, refl, ◌↔◌, ◌⊎◌, inl, Bool,
  true, false, not, ◌&&◌, Option, none, some, List, [], ◌∷◌, arith,
}
use glassbox_ai_quant.Prelude.Int.{pos, negsuc, pos_part, ◌+ℤ◌, ◌-ℤ◌, ◌*ℤ◌, neg, floor_div}
use glassbox_ai_quant.Prelude.Decimal.{Decimal, whole}
use glassbox_ai_quant.Clock.{Instant}
use glassbox_ai_quant.Structures.{put, bull_put_spread}
use glassbox_ai_quant.Structures.WorstCase.{vertical}
use glassbox_ai_quant.SystemState.{fresh}
use glassbox_ai_quant.Store.Rows.{opened}
use glassbox_ai_quant.Store.{unreadable, Position, Tables, get_position, training_rows}
use glassbox_ai_quant.Execution.Lifecycle.Outcomes.{realized_pnl}
use glassbox_ai_quant.Repair.{
  buy, sell, Fill, signed_cash, Verdict, refused, resolved, Resolution, hits, filled_qty, cash,
  scan, claims_of, claims, by_scan, judge, plan, is_resolved, apply,
}
use glassbox_ai_quant.Repair.Explained.{IsExplained, exit_cost}
use glassbox_ai_quant.Repair.Written.{apply_trains_nothing}
use glassbox_ai_quant.Audit.{
  AuditRecord, Format, checked, empty_log, file_of, last_hash, verify_from, verify_chain, AuditStep,
  appended, restart, run,
}
use glassbox_ai_quant.Audit.Chain.{
  IsFaithful, written_log_verifies, Collision, verified_files_agree,
}
use glassbox_ai_quant.Repair.Plans.{ForEach, live, resolved_exact, resolved_price}

abbrev stranded : Position
stranded = record {
  position_id = 4;
  signal_id = 9;
  structure = vertical bull_put_spread 7 put 30 (1, 95000000) (2, 90000000);
  qty = 2;
  entry_price = some (negsuc 1199999);
  max_loss = whole 760;
  status = opened;
  regime = none;
  features = unreadable;
  entry_spot = none;
  peak_pnl = pos 0;
  exit_barrier = none;
  meta_label = none;
  opened_at = some (pos 0);
  closed_at = none;
  realized_pnl = none;
}

-- Seconds as a text of one digit.
abbrev stamp : Instant → List ℕ
stamp t = (48 + pos_part t) ∷ []

-- The short put is bought back in two parts at 0.90, the long one sold at 0.30.
abbrev flattened : List Fill
flattened =
    record { symbol = 1; side = buy; qty = 1; price = pos 900000; at = 50 ∷ [] }
    ∷ record { symbol = 2; side = sell; qty = 2; price = pos 300000; at = 50 ∷ [] }
    ∷ record { symbol = 1; side = buy; qty = 1; price = pos 900000; at = 54 ∷ [] }
    ∷ []

-- Bought back at 0.60 net of a credit of 1.20: 120 dollars on two spreads.
abbrev outcome_of : Verdict → Option (Decimal × Decimal)
outcome_of (refused why) = none
outcome_of (resolved p r m) = some (p, r)

flattened_runs :
    outcome_of (judge stamp (stranded ∷ []) [] flattened stranded) ≡ some (pos 600000, whole 120)
unfolding judge by_scan scan hits filled_qty cash signed_cash claims claims_of floor_div ◌+ℤ◌ ◌-ℤ◌
    ◌*ℤ◌ neg
flattened_runs = refl

resolved_exact_example :
    ForEach
      (λ r x.
        (x.position_id ≡ r.position_id)
        × ((is_resolved x.verdict ≡ true)
            ↔ IsExplained stamp (live (stranded ∷ [])) [] flattened r))
      (live (stranded ∷ []))
      (plan stamp (stranded ∷ []) [] flattened)
resolved_exact_example = resolved_exact stamp (stranded ∷ []) [] flattened

stranded-IsExplained : IsExplained stamp (stranded ∷ []) [] flattened stranded
unfolding claims claims_of hits filled_qty
stranded-IsExplained = record {
  gone = (refl, (refl, tt));
  unshared = (omega arith, (omega arith, tt));
  some_qty = omega arith;
  closed_out = (refl, (refl, tt));
}

resolved_price_example :
    let price = floor_div (exit_cost stamp stranded flattened stranded.structure.legs) (pos 2) in
    (realized : Decimal) × (matched : List Fill) × IsIn
      (record { position_id = 4; verdict = resolved price realized matched })
      (plan stamp (stranded ∷ []) [] flattened)
    × (realized_pnl stranded (some price) ≡ some realized)
resolved_price_example =
    resolved_price stamp (stranded ∷ []) [] flattened stranded (inl refl) refl stranded-IsExplained

abbrev books : Tables
books = record {
  orders = [];
  positions = stranded ∷ [];
  arms = [];
  entry_attempts = [];
  close_attempts = [];
  close_barriers = [];
  system = fresh;
}

abbrev exits : List Resolution
exits = record { position_id = 4; verdict = resolved (pos 600000) (whole 120) flattened } ∷ []

apply_trains_nothing_example :
    training_rows (apply exits (pos 9) books).0
    ≡ keep_if (λ (r : Position). not (contains r.position_id (4 ∷ []))) (training_rows books)
apply_trains_nothing_example = apply_trains_nothing exits (pos 9) books

stranded_found : get_position 4 books ≡ some stranded
unfolding get_position
stranded_found = refl

-- A format whose lines are lists: a record is its body before the hash of the record before it.
abbrev same_list : List ℕ → List ℕ → Bool
same_list [] [] = true
same_list (x ∷ xs) (y ∷ ys) = x == y && same_list xs ys
same_list _ _ = false

abbrev read : List ℕ → Option (AuditRecord (List ℕ) ℕ)
read [] = none
read (b ∷ h) = some (record { prev_hash = h; body = b })

abbrev lists : Format (List ℕ) (List ℕ) ℕ
lists = record {
  canonical = λ r. r.body ∷ r.prev_hash;
  loads = read;
  sha256 = λ l. l;
  same_line = same_list;
  same_hash = same_list;
  genesis = [];
}

same_list_refl : (xs : List ℕ) → same_list xs xs ≡ true
same_list_refl [] = refl
same_list_refl (x ∷ xs) = rw ((==_iff x x).1 refl, same_list_refl xs) refl

same_list_eq : (xs ys : List ℕ) → same_list xs ys ≡ true → xs ≡ ys
same_list_eq [] [] e = refl
same_list_eq [] (y ∷ ys) e = absurd (ground (arith, e))
same_list_eq (x ∷ xs) [] e = absurd (ground (arith, e))
same_list_eq (x ∷ xs) (y ∷ ys) e =
    let (a, b) = and-true (x == y) (same_list xs ys) e in
    rw ((==_iff x y).0 a, same_list_eq xs ys b) refl

lists-IsFaithful : IsFaithful lists
lists-IsFaithful = record {
  loads-canonical = λ r. refl;
  line_iff = λ l m. (same_list_eq l m, λ e. rw (← e) (same_list_refl l));
  hash_iff = λ l m. (same_list_eq l m, λ e. rw (← e) (same_list_refl l));
}

abbrev two_days : List (AuditStep lists)
two_days = appended 1 8 ∷ appended 1 9 ∷ restart ∷ appended 1 7 ∷ appended 2 6 ∷ []

two_days-run :
    file_of lists 1 (run lists two_days empty_log) ≡ (8 ∷ []) ∷ (9 ∷ 8 ∷ []) ∷ (7 ∷ 9 ∷ 8 ∷ []) ∷ []
unfolding run glassbox_ai_quant.Audit.append last_hash
two_days-run = refl

written_log_verifies_example :
    let ls = file_of lists 1 (run lists two_days empty_log) in
    verify_chain lists ls ≡ checked true (length ls)
written_log_verifies_example = written_log_verifies lists lists-IsFaithful two_days 1

abbrev one_file : List (List ℕ)
one_file = (8 ∷ []) ∷ (9 ∷ 8 ∷ []) ∷ []

one_file_verifies : verify_chain lists one_file ≡ checked true 2
unfolding verify_chain verify_from
one_file_verifies = refl

verified_files_agree_example : (one_file ≡ one_file) ⊎ Collision lists one_file one_file
verified_files_agree_example =
    verified_files_agree lists lists-IsFaithful one_file one_file 2 one_file_verifies
      one_file_verifies refl
