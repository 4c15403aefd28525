-- ===== src/Prelude/Table.antt =====
-- Tables of rows with a key, as lists in the order of insertion.
use glassbox_ai_quant.Prelude.Tests.{◌==◌, if◌then◌else◌, is_some}
use glassbox_ai_quant.Prelude.Lists.{keep_if}
use Prim.Native.Nat.{ℕ}
use mathlib.Core.Path.{◌≡◌, refl}
use mathlib.Core.Bool.{false}
use mathlib.Core.Option.{Option, none, some}
use mathlib.Core.List.{List, [], ◌∷◌, ◌++◌}
use native.Mathlib.Omega.{arith}

module _ {A : Type 0} (key : A → ℕ) where
  -- `SELECT * ... WHERE key=?`, the first row
  abbrev pub find_row : ℕ → List A → Option A
  find_row k [] = none
  find_row k (r ∷ rows) = if k == key r then some r else find_row k rows

  -- `UPDATE ... WHERE key=?`
  abbrev pub update_rows : ℕ → (A → A) → List A → List A
  update_rows k f [] = []
  update_rows k f (r ∷ rows) = (if k == key r then f r else r) ∷ update_rows k f rows

  -- `SELECT * ... WHERE key=?`, all rows
  abbrev pub rows_of : ℕ → List A → List A
  rows_of k rows = keep_if (λ r. k == key r) rows

  -- `INSERT OR IGNORE`
  abbrev pub insert_or_ignore : A → List A → List A
  insert_or_ignore r rows = if is_some (find_row (key r) rows) then rows else rows ++ (r ∷ [])

  abbrev pub map_option : (A → A) → Option A → Option A
  map_option f none = none
  map_option f (some r) = some (f r)

  -- An update that keeps keys changes what is found under its key, and nothing else.
  pub find_row-update_rows :
      (k j : ℕ) (f : A → A)
      → ((r : A) → key (f r) ≡ key r)
      → (rows : List A)
      → find_row j (update_rows k f rows)
        ≡ (if j == k then map_option f (find_row j rows) else find_row j rows)
  find_row-update_rows k j f keeps [] = ground arith
  find_row-update_rows k j f keeps (r ∷ rows) =
      ground (arith, find_row-update_rows k j f keeps rows, keeps r)

  pub find_row-append :
      (j : ℕ) (r : A) (rows : List A)
      → find_row j (rows ++ (r ∷ [])) ≡ (
          if is_some (find_row j rows)
          then find_row j rows
          else if j == key r
          then some r
          else none)
  find_row-append j r [] = refl
  find_row-append j r (s ∷ rows) = ground (arith, find_row-append j r rows)

  pub rows_of-update_rows :
      (k j : ℕ) (f : A → A)
      → ((r : A) → key (f r) ≡ key r)
      → (j == k) ≡ false
      → (rows : List A) → rows_of j (update_rows k f rows) ≡ rows_of j rows
  rows_of-update_rows k j f keeps other [] = refl
  rows_of-update_rows k j f keeps other (r ∷ rows) =
      ground (arith, rows_of-update_rows k j f keeps other rows, keeps r, other)
