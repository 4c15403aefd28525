-- ===== src/Store.antt =====
-- glassbox/store.py: the tables of orders, positions and the bandit's arms, with their SQL as
-- functions of the whole store. Ids are only compared, so numbers stand for them. An instant stands for a
-- text in ISO form; `created_at` is the reading of the clock that the caller gives.
use glassbox_ai_quant.Prelude.{
  ◌==◌, if◌then◌else◌, is_some, any, keep_if, Dict, ℕ, ◌+◌, Bool, true, false, ◌&&◌, Option, none,
  some, List, [], ◌∷◌, ◌++◌, map,
}
use glassbox_ai_quant.Prelude.Table.{find_row, update_rows, insert_or_ignore}
use glassbox_ai_quant.Prelude.Int.{pos, ltb_ℤ}
use glassbox_ai_quant.Prelude.Decimal.{Decimal}
use glassbox_ai_quant.Clock.{Instant}
use glassbox_ai_quant.Structures.{
  StructureKind, bull_put_spread, bear_call_spread, iron_condor, call_debit_spread,
  put_debit_spread, long_strangle, Leg, Structure,
}
use glassbox_ai_quant.Manage.Views.{Barrier}
use glassbox_ai_quant.SystemState.{SystemState}
use glassbox_ai_quant.Store.Rows.{
  PositionStatus, closed, Intent, to_open, to_close, OrderStatus, is_live, is_closed, is_unresolved,
}
pub mod Rows

-- A row of `orders`. Every order is recorded with a position, and has its legs as the structure's.
pub record Order : Type 0 where
  pub client_order_id : ℕ
  pub alpaca_order_id : Option ℕ
  pub position_id : ℕ
  pub intent : Intent
  pub status : OrderStatus
  pub legs : List Leg
  pub limit_price : Option Decimal
  pub filled_price : Option Decimal
  pub created_at : Instant

-- `features_json`, by what the lifecycle makes of it: the field `spread_pct_of_mid`, or a text that
-- does not read as one.
pub data Features : Type 0 where
  unreadable : Features
  spread_field : Option Decimal → Features

-- `exit_barrier`: a barrier of glassbox/manage.py or the REPAIR_BARRIER of glassbox/repair.py.
pub data ExitBarrier : Type 0 where
  by_barrier : Barrier → ExitBarrier
  supervisor_flatten : ExitBarrier

-- A row of `positions`. The structure holds `underlying`, `kind` and `legs_json`.
pub record Position : Type 0 where
  pub position_id : ℕ
  pub signal_id : ℕ
  pub structure : Structure
  pub qty : ℕ
  pub entry_price : Option Decimal
  pub max_loss : Decimal
  pub status : PositionStatus
  pub regime : Option ℕ
  pub features : Features
  pub entry_spot : Option Decimal
  pub peak_pnl : Decimal
  pub exit_barrier : Option ExitBarrier
  pub meta_label : Option Bool
  pub opened_at : Option Instant
  pub closed_at : Option Instant
  pub realized_pnl : Option Decimal

-- A row of `bandit_state`. The counts start at 1 and grow by 1, so they are whole.
pub record ArmRow : Type 0 where
  pub arm : StructureKind
  pub regime : ℕ
  pub alpha : ℕ
  pub beta : ℕ
  pub pulls : ℕ

-- The store. The rows `entry_attempt:<id>`, `close_attempt:<id>` and `close_barrier:<id>` of
-- `system_state` are the three dicts.
pub record Tables : Type 0 where
  pub orders : List Order
  pub positions : List Position
  pub arms : List ArmRow
  pub entry_attempts : Dict ℕ
  pub close_attempts : Dict ℕ
  pub close_barriers : Dict Barrier
  pub system : SystemState

-- `Store.record_order`, with the row that it inserts
unfoldable pub record_order : Order → Tables → Tables
record_order o t = record t { orders = insert_or_ignore (λ r. r.client_order_id) o t.orders }

-- `Store.update_order`
unfoldable pub update_order : ℕ → (Order → Order) → Tables → Tables
update_order c f t = record t { orders = update_rows (λ r. r.client_order_id) c f t.orders }

-- `Store.get_order`
unfoldable pub get_order : ℕ → Tables → Option Order
get_order c t = find_row (λ r. r.client_order_id) c t.orders

-- `Store.orders_in_flight`
unfoldable pub orders_in_flight : Tables → List Order
orders_in_flight t = keep_if (λ o. is_unresolved o.status) t.orders

abbrev pub same_intent : Intent → Intent → Bool
same_intent to_open to_open = true
same_intent to_close to_close = true
same_intent _ _ = false

-- A row before those of higher rowid, of which the second argument comes first.
abbrev pub newer : Order → Option Order → Option Order
newer o none = some o
newer o (some n) = if ltb_ℤ n.created_at o.created_at then some o else some n

-- The first row by `created_at DESC, rowid DESC`; rows stand in the order of their rowids.
unfoldable pub newest : List Order → Option Order
newest [] = none
newest (o ∷ rows) = newer o (newest rows)

-- `Store.latest_order_for`
unfoldable pub latest_order_for : ℕ → Intent → Tables → Option Order
unfolding newest
latest_order_for k i t =
    newest (keep_if (λ o. k == o.position_id && same_intent i o.intent) t.orders)

-- `Store.upsert_position` of a row that exists
unfoldable pub update_position : ℕ → (Position → Position) → Tables → Tables
update_position k f t = record t { positions = update_rows (λ r. r.position_id) k f t.positions }

-- `Store.get_position`
unfoldable pub get_position : ℕ → Tables → Option Position
get_position k t = find_row (λ r. r.position_id) k t.positions

-- `Store.open_positions`
unfoldable pub open_positions : Tables → List Position
open_positions t = keep_if (λ r. is_live r.status) t.positions

-- `float(row["peak_pnl"]) if row and ... else 0.0`
abbrev pub stored_peak_pnl : Option Position → Decimal
stored_peak_pnl none = pos 0
stored_peak_pnl (some r) = r.peak_pnl

-- `Store.record_peak_pnl`
unfoldable pub record_peak_pnl : ℕ → Decimal → Tables → Tables × Decimal
record_peak_pnl k pnl t =
    let peak = stored_peak_pnl (get_position k t) in
    if ltb_ℤ peak pnl
    then (update_position k (λ r. record r { peak_pnl = pnl }) t, pnl)
    else (t, peak)

-- `Store.close_position`. The repair gives no label.
unfoldable pub close_position : ℕ → ExitBarrier → Option Bool → Decimal → Instant → Tables → Tables
close_position k barrier label realized at t =
    update_position k
      (λ r. record r {
        status = closed;
        exit_barrier = some barrier;
        meta_label = label;
        realized_pnl = some realized;
        closed_at = some at;
      })
      t

-- `Store.training_rows`: closed positions with a label
unfoldable pub training_rows : Tables → List Position
training_rows t = keep_if (λ r. is_closed r.status && is_some r.meta_label) t.positions

abbrev pub kind_index : StructureKind → ℕ
kind_index bull_put_spread = 0
kind_index bear_call_spread = 1
kind_index iron_condor = 2
kind_index call_debit_spread = 3
kind_index put_debit_spread = 4
kind_index long_strangle = 5

-- `WHERE arm=? AND regime=?`
abbrev pub is_arm : StructureKind → ℕ → ArmRow → Bool
is_arm kind regime a = kind_index kind == kind_index a.arm && regime == a.regime

-- `UPDATE bandit_state SET {column}={column}+1, pulls=pulls+1`
abbrev pub observe : Bool → ArmRow → ArmRow
observe true a = record a { alpha = a.alpha + 1; pulls = a.pulls + 1 }
observe false a = record a { beta = a.beta + 1; pulls = a.pulls + 1 }

abbrev pub new_arm : StructureKind → ℕ → ArmRow
new_arm kind regime = record { arm = kind; regime = regime; alpha = 1; beta = 1; pulls = 0 }

-- `Store.update_bandit`, on the rows
unfoldable pub update_arms : StructureKind → ℕ → Bool → List ArmRow → List ArmRow
update_arms kind regime won rows =
    let with_row =
      if any (is_arm kind regime) rows then rows else rows ++ (new_arm kind regime ∷ []) in
    map (λ (a : ArmRow). if is_arm kind regime a then observe won a else a) with_row

-- `Store.update_bandit`
unfoldable pub update_bandit : StructureKind → ℕ → Bool → Tables → Tables
update_bandit kind regime won t = record t { arms = update_arms kind regime won t.arms }

-- `int(trader.store.get_state(...) or d)`, for a counter
abbrev pub counter : ℕ → Option ℕ → ℕ
counter d none = d
counter d (some n) = n
