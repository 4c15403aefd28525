-- ===== src/Manage/Views.antt =====
-- The data of glassbox/manage.py, and what is computed from a view of a position.
use glassbox_ai_quant.Prelude.{◌==◌, if◌then◌else◌, ℕ, Bool, false, ◌&&◌, ◌||◌, Option, none, some}
use glassbox_ai_quant.Prelude.Int.{pos, ◌-ℤ◌, ◌*ℤ◌, neg, abs, ltb_ℤ, leb_ℤ, min_ℤ}
use glassbox_ai_quant.Prelude.Decimal.{Decimal, whole, times, over, percent_of}
use glassbox_ai_quant.Clock.{Instant}
use glassbox_ai_quant.Config.{Config}
use glassbox_ai_quant.Structures.{StructureKind, is_credit_kind}
use glassbox_ai_quant.Macro.{MacroWindow}

pub data Barrier : Type 0 where
  profit stop time breakeven trail bell deadline expiry_risk : Barrier
  macro_risk thesis_broken thesis_complete no_barrier : Barrier

pub data Action : Type 0 where
  hold close : Action

-- `thesis_direction`, a text; `neither` is any other than "up" and "down".
pub data Direction : Type 0 where
  up down neither : Direction

pub record PositionView : Type 0 where
  pub position_id : ℕ
  pub kind : StructureKind
  pub qty : ℕ
  pub entry_price : Decimal
  pub current_price : Decimal
  pub max_loss_per_spread : Decimal
  pub opened_at : Instant
  pub horizon_hours : Decimal
  pub hours_to_expiry : Decimal
  pub peak_pnl : Decimal
  pub thesis_direction : Direction
  pub thesis_move_pct : Decimal
  pub entry_spot : Decimal
  pub current_spot : Decimal

abbrev pub is_credit_view : PositionView → Bool
is_credit_view v = is_credit_kind v.kind

-- `PositionView.entry_premium`
abbrev pub entry_premium : PositionView → Decimal
entry_premium v = abs v.entry_price

-- `PositionView.unrealized_pnl`
unfoldable pub unrealized_pnl : PositionView → Decimal
unrealized_pnl v = pos v.qty *ℤ (pos 100 *ℤ (v.current_price -ℤ v.entry_price))

-- `PositionView.move_since_entry_pct`
unfoldable pub move_since_entry_pct : PositionView → Decimal
move_since_entry_pct v =
    if leb_ℤ v.entry_spot (pos 0) || leb_ℤ v.current_spot (pos 0)
    then pos 0
    else pos 100 *ℤ over (v.current_spot -ℤ v.entry_spot) v.entry_spot

-- The move that completes the thesis, by its direction.
abbrev achieved : Direction → Bool → Decimal → Decimal → Bool
achieved up credit moved required = leb_ℤ required moved
achieved down credit moved required = leb_ℤ required (neg moved)
achieved neither credit moved required = if credit then false else leb_ℤ required (abs moved)

-- `PositionView.thesis_move_achieved`
unfoldable pub thesis_move_achieved : PositionView → Config → Bool
thesis_move_achieved v cfg =
    if leb_ℤ v.thesis_move_pct (pos 0) || leb_ℤ v.entry_spot (pos 0)
    then false
    else achieved v.thesis_direction (is_credit_view v) (move_since_entry_pct v)
        (times v.thesis_move_pct cfg.manage.thesis_complete_fraction)

-- `PositionView.max_profit`
unfoldable pub max_profit : PositionView → Decimal
max_profit v = pos v.qty *ℤ (pos 100 *ℤ entry_premium v)

-- `profit_target`
unfoldable pub profit_target : PositionView → Config → Decimal
profit_target v cfg =
    if is_credit_view v
    then percent_of cfg.manage.credit_profit_take_pct (max_profit v)
    else percent_of cfg.manage.debit_profit_take_pct (pos v.qty *ℤ (pos 100 *ℤ entry_premium v))

-- The loss at which a position is stopped, before it is capped.
unfoldable pub stop_loss : PositionView → Config → Decimal
stop_loss v cfg =
    if is_credit_view v
    then pos v.qty *ℤ (pos 100 *ℤ times (entry_premium v) cfg.manage.stop_multiple_of_credit)
    else pos v.qty *ℤ (pos 100 *ℤ percent_of cfg.manage.debit_stop_pct (entry_premium v))

-- `stop_level`
unfoldable pub stop_level : PositionView → Config → Decimal
stop_level v cfg = neg (min_ℤ (stop_loss v cfg) (pos v.qty *ℤ v.max_loss_per_spread))

pub record BellContext : Type 0 where
  pub at_bell : Bool
  pub weekday_et : ℕ
  pub equity : Decimal
  pub macro_before_open : Option MacroWindow
  pub corporate_blocked : Bool

-- Which rule of `_bell_reason` spoke; `may_carry` is the empty text.
pub data BellReason : Type 0 where
  weekend release_ahead corporate_ahead near_stop unprotected_gap may_carry : BellReason

-- `window is not None and window.active`
abbrev pub is_active : Option MacroWindow → Bool
is_active none = false
is_active (some w) = w.active

unfoldable pub bell_reason : PositionView → Config → Decimal → Decimal → BellContext → BellReason
bell_reason v cfg pnl level b =
    if cfg.manage.bell_no_weekend_carry && b.weekday_et == 4
    then weekend
    else if is_active b.macro_before_open && is_credit_view v
    then release_ahead
    else if b.corporate_blocked
    then corporate_ahead
    else if leb_ℤ (pos 0) pnl
    then may_carry
    else if ltb_ℤ level (pos 0) && leb_ℤ pnl (times level cfg.manage.bell_near_stop_fraction)
    then near_stop
    else if ltb_ℤ (over (times b.equity cfg.manage.bell_max_unprotected_pct_equity) (whole 100))
        (pos v.qty *ℤ v.max_loss_per_spread -ℤ abs level)
    then unprotected_gap
    else may_carry

pub record ManageDecision : Type 0 where
  pub action : Action
  pub barrier : Barrier
  pub pnl : Decimal
  pub label : Option Bool  -- 1 is `true`
