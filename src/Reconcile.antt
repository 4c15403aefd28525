-- ===== src/Reconcile.antt =====
-- glassbox/reconcile.py, with the rows of the `positions` and `orders` tables that it reads. Symbols,
-- position and order ids are only compared and ordered, so numbers stand for them. The broker's
-- quantities are whole, as contracts are.
use glassbox_ai_quant.Prelude.{
  ltb, ◌==◌, if◌then◌else◌, keep_if, contains, Dict, lookup, insert, ℕ, ◌*◌, Bool, true, false, not,
  ◌&&◌, Option, none, some, List, [], ◌∷◌, ◌++◌, map,
}
use glassbox_ai_quant.Prelude.Int.{ℤ, pos, ◌+ℤ◌, ◌-ℤ◌, neg, leb_ℤ, ◌==ℤ◌, min_ℤ, max_ℤ}
use glassbox_ai_quant.SystemState.{
  from_reconcile, from_assignment, diverged, assigned, resume, halt_divergence, halt_assignment,
  SystemState, append,
}
use glassbox_ai_quant.Store.Rows.{
  PositionStatus, opening, closing, Intent, to_open, to_close, OrderStatus, LegRow, is_live,
  is_unresolved,
}
pub mod Bands
pub mod Latch
pub mod Nets

pub record PositionRow : Type 0 where
  pub position_id : ℕ
  pub status : PositionStatus
  pub qty : ℕ
  pub legs : List LegRow

pub record OrderRow : Type 0 where
  pub client_order_id : ℕ
  pub position_id : ℕ
  pub intent : Intent
  pub status : OrderStatus

pub record Books : Type 0 where
  pub positions : List PositionRow
  pub orders : List OrderRow

pub record BrokerPosition : Type 0 where
  pub symbol : ℕ
  pub qty : ℤ

-- `Store.open_positions`
unfoldable pub open_positions : Books → List PositionRow
open_positions b = keep_if (λ r. is_live r.status) b.positions

-- `Store.orders_in_flight`
unfoldable pub orders_in_flight : Books → List OrderRow
orders_in_flight b = keep_if (λ o. is_unresolved o.status) b.orders

abbrev pub or_zero : Option ℤ → ℤ
or_zero none = pos 0
or_zero (some q) = q

-- `totals.get(s, 0)`
abbrev pub held : Dict ℤ → ℕ → ℤ
held d s = or_zero (lookup s d)

-- `totals[s] = totals.get(s, 0) + q`
abbrev pub tally : ℕ → ℤ → Dict ℤ → Dict ℤ
tally s q d = insert s (held d s +ℤ q) d

-- `leg["ratio_qty"] * qty * (1 if leg["side"] == "long" else -1)`
abbrev pub signed : ℕ → LegRow → ℤ
signed qty l = if l.is_long then pos (l.ratio_qty * qty) else neg (pos (l.ratio_qty * qty))

unfoldable pub tally_legs : ℕ → List LegRow → Dict ℤ → Dict ℤ
tally_legs qty [] d = d
tally_legs qty (l ∷ ls) d = tally_legs qty ls (tally l.symbol (signed qty l) d)

unfoldable pub tally_rows : List PositionRow → Dict ℤ → Dict ℤ
tally_rows [] d = d
tally_rows (r ∷ rs) d = tally_rows rs (tally_legs r.qty r.legs d)

-- `_leg_quantities`
unfoldable pub leg_quantities : List PositionRow → Dict ℤ
leg_quantities rows = keep_if (λ e. not (e.1 ==ℤ pos 0)) (tally_rows rows [])

unfoldable pub tally_broker : List BrokerPosition → Dict ℤ → Dict ℤ
tally_broker [] d = d
tally_broker (p ∷ ps) d = tally_broker ps (if p.qty ==ℤ pos 0 then d else tally p.symbol p.qty d)

-- `_broker_leg_quantities`
unfoldable pub broker_leg_quantities : List BrokerPosition → Dict ℤ
broker_leg_quantities ps = tally_broker ps []

-- The position ids of the orders in flight with an intent.
abbrev is_to_open : OrderRow → Bool
is_to_open o = elim o.intent [ to_open ↦ true | to_close ↦ false ]

abbrev pub pending_open_pids : Books → List ℕ
pending_open_pids b = map (λ o. o.position_id) (keep_if is_to_open (orders_in_flight b))

abbrev pub pending_close_pids : Books → List ℕ
pending_close_pids b =
    map (λ o. o.position_id) (keep_if (λ o. not (is_to_open o)) (orders_in_flight b))

-- `row["status"] == "opening" and row["position_id"] in pending_open_pids`
unfoldable pub is_arriving : Books → PositionRow → Bool
is_arriving b r = elim r.status [
  | opening ↦ contains r.position_id (pending_open_pids b)
  | _ ↦ false
]

-- `row["status"] == "closing" and row["position_id"] in pending_close_pids`
unfoldable pub is_leaving : Books → PositionRow → Bool
is_leaving b r = elim r.status [
  | closing ↦ contains r.position_id (pending_close_pids b)
  | _ ↦ false
]

abbrev pub arriving_rows : Books → List PositionRow
arriving_rows b = keep_if (is_arriving b) (open_positions b)

abbrev pub settled_rows : Books → List PositionRow
settled_rows b = keep_if (λ r. not (is_arriving b r)) (open_positions b)

abbrev pub leaving_rows : Books → List PositionRow
leaving_rows b = keep_if (is_leaving b) (settled_rows b)

-- The four dicts that `reconcile` compares; `detail` of its result.
pub record Detail : Type 0 where
  pub local : Dict ℤ
  pub arriving : Dict ℤ
  pub leaving : Dict ℤ
  pub broker : Dict ℤ

unfoldable pub detail : Books → List BrokerPosition → Detail
detail b ps = record {
  local = leg_quantities (settled_rows b);
  arriving = leg_quantities (arriving_rows b);
  leaving = leg_quantities (leaving_rows b);
  broker = broker_leg_quantities ps;
}

-- The least and the largest of the four corners.
unfoldable pub band_low : ℤ → ℤ → ℤ → ℤ
band_low base a l = min_ℤ (min_ℤ base (base +ℤ a)) (min_ℤ (base -ℤ l) (base +ℤ a -ℤ l))

unfoldable pub band_high : ℤ → ℤ → ℤ → ℤ
band_high base a l = max_ℤ (max_ℤ base (base +ℤ a)) (max_ℤ (base -ℤ l) (base +ℤ a -ℤ l))

pub data Standing : Type 0 where
  in_band is_broker_only is_local_only is_mismatch : Standing

unfoldable pub standing : ℤ → ℤ → ℤ → ℤ → Standing
standing base a l b =
    if leb_ℤ (band_low base a l) b && leb_ℤ b (band_high base a l)
    then in_band
    else if (base ==ℤ pos 0) && (a ==ℤ pos 0) && (l ==ℤ pos 0)
    then is_broker_only
    else if b ==ℤ pos 0
    then is_local_only
    else is_mismatch

-- The body of the loop over the symbols.
unfoldable pub symbol_standing : Detail → ℕ → Standing
symbol_standing d s =
    standing (held d.local s) (held d.arriving s) (held d.leaving s) (held d.broker s)

-- A number put in its place in an ascending list without repetitions.
abbrev pub place : ℕ → List ℕ → List ℕ
place k [] = k ∷ []
place k (j ∷ xs) =
    let rest = place k xs in if k == j then j ∷ xs else if ltb k j then k ∷ j ∷ xs else j ∷ rest

-- `sorted(set(xs))`
unfoldable pub sorted_set : List ℕ → List ℕ
sorted_set [] = []
sorted_set (x ∷ xs) = place x (sorted_set xs)

abbrev pub keys : Dict ℤ → List ℕ
keys d = map (λ e. e.0) d

-- The symbols that one of the four dicts names, ascending. The code sorts each list of the result.
unfoldable pub symbols : Detail → List ℕ
symbols d = sorted_set (keys d.local ++ keys d.arriving ++ keys d.leaving ++ keys d.broker)

abbrev pub is_in_band : Standing → Bool
is_in_band in_band = true
is_in_band _ = false

abbrev pub broker_has_more : Standing → Bool
broker_has_more is_broker_only = true
broker_has_more _ = false

abbrev pub broker_lost : Standing → Bool
broker_lost is_local_only = true
broker_lost _ = false

abbrev pub differs : Standing → Bool
differs is_mismatch = true
differs _ = false

pub record ReconcileResult : Type 0 where
  pub ok : Bool
  pub local_only : List ℕ
  pub broker_only : List ℕ
  pub qty_mismatch : List ℕ
  pub in_flight : List ℕ
  pub detail : Detail

abbrev pub is_empty : List ℕ → Bool
is_empty [] = true
is_empty (x ∷ xs) = false

-- `reconcile`
unfoldable pub reconcile : Books → List BrokerPosition → ReconcileResult
reconcile b ps =
    let d = detail b ps in
    let local_only = keep_if (λ s. broker_lost (symbol_standing d s)) (symbols d) in
    let broker_only = keep_if (λ s. broker_has_more (symbol_standing d s)) (symbols d) in
    let mismatch = keep_if (λ s. differs (symbol_standing d s)) (symbols d) in
    record {
      ok = is_empty local_only && is_empty broker_only && is_empty mismatch;
      local_only = local_only;
      broker_only = broker_only;
      qty_mismatch = mismatch;
      in_flight = sorted_set (map (λ o. o.client_order_id) (orders_in_flight b));
      detail = d;
    }

-- What `enforce` writes, by whether the books agree with the broker.
unfoldable pub latch : Bool → SystemState → SystemState
latch true s = elim s.halt_reason [
  | none ↦ s
  | some r ↦ elim s.halt_source [
    | some from_reconcile ↦ append resume (record s { halt_reason = none; halt_source = none })
    | _ ↦ s
  ]
]
latch false s =
    append halt_divergence
      (record s { halt_reason = some diverged; halt_source = some from_reconcile })

-- `enforce`
unfoldable pub enforce : Books → List BrokerPosition → SystemState → SystemState × ReconcileResult
enforce b ps s = let r = reconcile b ps in (latch r.ok s, r)

-- An account activity. Its key stands for `f"{a.date}:{a.symbol}:{a.qty}"`.
pub record Activity : Type 0 where
  pub is_assignment : Bool
  pub key : ℕ
  pub symbol : ℕ

abbrev pub unseen : SystemState → List Activity → List Activity
unseen s acts =
    keep_if (λ a. not (contains a.key s.seen_assignments)) (keep_if (λ a. a.is_assignment) acts)

abbrev pub halt_assigned : List Activity → SystemState → SystemState
halt_assigned news s = append halt_assignment (record s {
  halt_reason = some assigned;
  halt_source = some from_assignment;
  seen_assignments = sorted_set (map (λ a. a.key) news ++ s.seen_assignments);
})

abbrev pub assignments_of : List Activity → SystemState → SystemState × List ℕ
assignments_of [] s = (s, [])
assignments_of (a ∷ news) s = (halt_assigned (a ∷ news) s, map (λ n. n.symbol) (a ∷ news))

-- `check_assignments`
unfoldable pub check_assignments : List Activity → SystemState → SystemState × List ℕ
check_assignments acts s = assignments_of (unseen s acts) s
