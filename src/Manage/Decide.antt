-- ===== src/Manage/Decide.antt =====
-- `evaluate_position` of glassbox/manage.py.
use glassbox_ai_quant.Prelude.{
  if◌then◌else◌, Bool, true, false, ◌&&◌, Option, none, some, List, [], ◌∷◌,
}
use glassbox_ai_quant.Prelude.Int.{pos, ◌+ℤ◌, ltb_ℤ, leb_ℤ}
use glassbox_ai_quant.Prelude.Decimal.{Decimal, whole, percent_of}
use glassbox_ai_quant.Clock.{Instant, hours}
use glassbox_ai_quant.Config.{Config}
use glassbox_ai_quant.Macro.{MacroWindow}
use glassbox_ai_quant.Manage.Views.{
  Barrier, profit, stop, time, breakeven, trail, bell, deadline, expiry_risk, macro_risk,
  thesis_complete, no_barrier, hold, close, PositionView, is_credit_view, unrealized_pnl,
  thesis_move_achieved, profit_target, stop_level, BellContext, BellReason, may_carry, is_active,
  bell_reason, ManageDecision,
}

-- What `evaluate_position` is given, besides the view and the configuration.
pub record Tick : Type 0 where
  pub now : Instant
  pub deadline : Option Instant
  pub macro_window : Option MacroWindow
  pub bell : Option BellContext

-- `deadline and now >= deadline`
abbrev pub past_deadline : Tick → Bool
past_deadline t = elim t.deadline [ none ↦ false | some d ↦ leb_ℤ d t.now ]

-- The bell gate's word, `may_carry` where it does not apply.
abbrev pub bell_word : PositionView → Config → Tick → BellReason
bell_word v cfg t = elim t.bell [
  | none ↦ may_carry
  | some b ↦
      if b.at_bell then bell_reason v cfg (unrealized_pnl v) (stop_level v cfg) b else may_carry
]

abbrev pub speaks : BellReason → Bool
speaks may_carry = false
speaks _ = true

-- `peak_pnl >= target * (pct / 100)`
abbrev pub is_armed : Decimal → PositionView → Config → Bool
is_armed pct v cfg = leb_ℤ (percent_of pct (profit_target v cfg)) v.peak_pnl

-- `now >= opened_at + timedelta(hours=horizon_hours)`
abbrev pub horizon_elapsed : PositionView → Tick → Bool
horizon_elapsed v t = leb_ℤ (v.opened_at +ℤ hours v.horizon_hours) t.now

abbrev closing : Barrier → Decimal → Bool → ManageDecision
closing b pnl won = record { action = close; barrier = b; pnl = pnl; label = some won }

-- The tests of the code and the barrier that each returns with, in the order of the code.
unfoldable pub tests : PositionView → Config → Tick → List (Bool × Barrier)
tests v cfg t =
    (past_deadline t, deadline)
    ∷ (ltb_ℤ v.hours_to_expiry (whole cfg.manage.min_hours_to_expiry), expiry_risk)
    ∷ (is_active t.macro_window && is_credit_view v, macro_risk)
    ∷ (cfg.manage.exit_on_thesis_complete && thesis_move_achieved v cfg, thesis_complete)
    ∷ (leb_ℤ (unrealized_pnl v) (stop_level v cfg), stop)
    ∷ (speaks (bell_word v cfg t), bell)
    ∷ (
      is_armed cfg.manage.trail_arm_pct v cfg
          && leb_ℤ (unrealized_pnl v) (percent_of cfg.manage.trail_keep_pct v.peak_pnl),
      trail,
    )
    ∷ (
      is_armed cfg.manage.breakeven_trigger_pct v cfg && leb_ℤ (unrealized_pnl v) (pos 0),
      breakeven,
    )
    ∷ (leb_ℤ (profit_target v cfg) (unrealized_pnl v), profit)
    ∷ (horizon_elapsed v t && ltb_ℤ (pos 0) (unrealized_pnl v), time)
    ∷ []

-- `if test: return`, one after the other.
abbrev pub first : List (Bool × Barrier) → Barrier
first [] = no_barrier
first ((test, b) ∷ rest) = let later = first rest in if test then b else later

unfoldable pub struck : PositionView → Config → Tick → Barrier
struck v cfg t = first (tests v cfg t)

-- The decision that a barrier stands for. A stop is labelled 0 and a profit 1, all others by the P&L.
abbrev pub decision : Barrier → Decimal → ManageDecision
decision no_barrier pnl = record { action = hold; barrier = no_barrier; pnl = pnl; label = none }
decision stop pnl = closing stop pnl false
decision profit pnl = closing profit pnl true
decision b pnl = closing b pnl (ltb_ℤ (pos 0) pnl)

unfoldable pub evaluate_position : PositionView → Config → Tick → ManageDecision
evaluate_position v cfg t = decision (struck v cfg t) (unrealized_pnl v)
