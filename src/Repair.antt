-- ===== src/Repair.antt =====
-- glassbox/repair.py: the exits of positions that were closed behind the store's back. The fills are
-- those of glassbox/data/activities.py, whose times are texts; a position's row is that of the store,
-- whose time of opening is made a text by `isoformat`, an argument.
use glassbox_ai_quant.Prelude.{
  ltb, ◌==◌, if◌then◌else◌, keep_if, Dict, ℕ, ◌+◌, ◌*◌, Bool, true, false, not, ◌&&◌, Option, none,
  some, List, [], ◌∷◌, ◌++◌, map,
}
use glassbox_ai_quant.Prelude.Int.{ℤ, pos, ◌+ℤ◌, ◌-ℤ◌, ◌*ℤ◌, neg, ◌==ℤ◌, floor_div}
use glassbox_ai_quant.Prelude.Decimal.{Decimal}
use glassbox_ai_quant.Clock.{Instant}
use glassbox_ai_quant.Structures.{LegSide, long, short, Leg}
use glassbox_ai_quant.Store.Rows.{is_live}
use glassbox_ai_quant.Store.{supervisor_flatten, Position, Tables, close_position}
use glassbox_ai_quant.Reconcile.{held, is_empty}
pub mod Explained
pub mod Plans
pub mod Written

-- `Fill.side`, by what it starts with.
pub data FillSide : Type 0 where
  buy sell other_side : FillSide

pub record Fill : Type 0 where
  pub symbol : ℕ
  pub side : FillSide
  pub qty : ℕ
  pub price : Decimal
  pub at : List ℕ

-- `Fill.signed_cash`
unfoldable pub signed_cash : Fill → Decimal
signed_cash f = elim f.side [ buy ↦ f.price | _ ↦ neg f.price ]

-- Why a position is left alone, with the symbols that say so.
pub data Refusal : Type 0 where
  still_held shared no_matching_fills : List ℕ → Refusal
  no_quantity : Refusal

-- `Resolution.ok`, `reason`, `close_price`, `realized_pnl` and `fills`
pub data Verdict : Type 0 where
  refused : Refusal → Verdict
  resolved : Decimal → Decimal → List Fill → Verdict

pub record Resolution : Type 0 where
  pub position_id : ℕ
  pub verdict : Verdict

-- `f.side.startswith(_closing_side(leg["side"]))`
abbrev pub closes_leg : LegSide → FillSide → Bool
closes_leg long sell = true
closes_leg short buy = true
closes_leg _ _ = false

-- `a < b`, of texts, by their code points
abbrev pub ltb_text : List ℕ → List ℕ → Bool
ltb_text a [] = false
ltb_text [] (d ∷ ds) = true
ltb_text (c ∷ cs) (d ∷ ds) = let rest = ltb_text cs ds in if c == d then rest else ltb c d

-- `str(row["opened_at"] or "")`, where `isoformat` is that of a datetime
abbrev pub opened_text : (Instant → List ℕ) → Option Instant → List ℕ
opened_text isoformat none = []
opened_text isoformat (some t) = isoformat t

-- `f.at > opened_at`, which compares texts
abbrev pub since_opened : (Instant → List ℕ) → Option Instant → List ℕ → Bool
since_opened isoformat opened_at at = ltb_text (opened_text isoformat opened_at) at

-- `hits`
unfoldable pub hits : (Instant → List ℕ) → Position → Leg → List Fill → List Fill
hits isoformat row l fills =
    keep_if
      (λ f.
        l.symbol == f.symbol
        && closes_leg l.side f.side
        && since_opened isoformat row.opened_at f.at)
      fills

unfoldable pub filled_qty : List Fill → ℕ
filled_qty [] = 0
filled_qty (f ∷ fs) = f.qty + filled_qty fs

-- `sum(f.signed_cash * f.qty for f in hits)`
unfoldable pub cash : List Fill → Decimal
cash [] = pos 0
cash (f ∷ fs) = (pos f.qty *ℤ signed_cash f) +ℤ cash fs

-- `int(leg["ratio_qty"]) * qty`
abbrev pub need : Position → Leg → ℕ
need row l = l.ratio_qty * row.qty

-- What the loop over the legs collects.
pub record Scan : Type 0 where
  pub net_cash : Decimal
  pub matched : List Fill
  pub missing : List ℕ

unfoldable pub scan : (Instant → List ℕ) → Position → List Fill → List Leg → Scan
scan isoformat row fills [] = record { net_cash = pos 0; matched = []; missing = [] }
scan isoformat row fills (l ∷ ls) =
    let rest = scan isoformat row fills ls in
    let found = hits isoformat row l fills in
    if filled_qty found == need row l
    then record rest { net_cash = cash found +ℤ rest.net_cash; matched = found ++ rest.matched }
    else record rest { missing = l.symbol ∷ rest.missing }

-- `claims[symbol]`: how many legs of the candidates have the symbol.
unfoldable pub claims_of : ℕ → List Leg → ℕ
claims_of symbol [] = 0
claims_of symbol (l ∷ ls) =
    let rest = claims_of symbol ls in if symbol == l.symbol then rest + 1 else rest

unfoldable pub claims : ℕ → List Position → ℕ
claims symbol [] = 0
claims symbol (r ∷ rows) = claims_of symbol r.structure.legs + claims symbol rows

abbrev pub symbols_where : (Leg → Bool) → List Leg → List ℕ
symbols_where p ls = map (λ (l : Leg). l.symbol) (keep_if p ls)

abbrev pub is_held : Dict ℤ → Leg → Bool
is_held broker l = not (held broker l.symbol ==ℤ pos 0)

abbrev pub is_claimed_twice : List Position → Leg → Bool
is_claimed_twice rows l = ltb 1 (claims l.symbol rows)

-- `net_cash / qty`, of a position with contracts
abbrev pub close_price : Position → Scan → Decimal
close_price row s = floor_div s.net_cash (pos row.qty)

abbrev pub entry_of : Option Decimal → Decimal
entry_of none = pos 0
entry_of (some p) = p

-- The end of the loop over the candidates.
unfoldable pub by_scan : Position → Scan → Verdict
by_scan row s =
    if is_empty s.missing
    then resolved (close_price row s)
        (pos row.qty *ℤ (pos 100 *ℤ (neg (close_price row s) -ℤ entry_of row.entry_price)))
        s.matched
    else refused (no_matching_fills s.missing)

-- The body of the loop over the candidates.
unfoldable pub judge : (Instant → List ℕ) → List Position → Dict ℤ → List Fill → Position → Verdict
judge isoformat candidates broker fills row =
    let legs = row.structure.legs in
    let kept = symbols_where (is_held broker) legs in
    let twice = symbols_where (is_claimed_twice candidates) legs in
    if not (is_empty kept)
    then refused (still_held kept)
    else if not (is_empty twice)
    then refused (shared twice)
    else if row.qty == 0
    then refused no_quantity
    else by_scan row (scan isoformat row fills legs)

-- `candidates`; the REPAIRABLE_STATUSES are the live ones
unfoldable pub candidates : List Position → List Position
candidates rows = keep_if (λ r. is_live r.status) rows

-- `plan`
unfoldable pub plan : (Instant → List ℕ) → List Position → Dict ℤ → List Fill → List Resolution
plan isoformat rows broker fills =
    map
      (λ (r : Position). record {
        position_id = r.position_id;
        verdict = judge isoformat (candidates rows) broker fills r;
      })
      (candidates rows)

abbrev pub write : ℕ → Verdict → Instant → Tables → Tables
write k (refused why) at t = t
write k (resolved price realized fills) at t =
    close_position k supervisor_flatten none realized at t

abbrev pub is_resolved : Verdict → Bool
is_resolved (refused why) = false
is_resolved (resolved price realized fills) = true

-- `apply`: the store, and how many positions were closed. The audit records only repeat the
-- resolutions.
unfoldable pub apply : List Resolution → Instant → Tables → Tables × ℕ
apply [] at t = (t, 0)
apply (r ∷ rs) at t =
    let rest = apply rs at (write r.position_id r.verdict at t) in
    (rest.0, if is_resolved r.verdict then rest.1 + 1 else rest.1)
