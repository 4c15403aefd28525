-- ===== src/Manage/Order.antt =====
-- Which barrier of glassbox/manage.py closes a position, and when none does.
use glassbox_ai_quant.Prelude.{
  Bool-cases, and-false, All, ◌≡◌, refl, ap, ◌≢◌, ◌↔◌, inl, inr, Bool, true, false, ◌&&◌, List, [],
  ◌∷◌, ◌++◌, arith,
}
use glassbox_ai_quant.Prelude.Int.{pos, ◌≤ℤ◌, ◌<ℤ◌, leb_ℤ, ltb_ℤ-false, leb_ℤ-false}
use glassbox_ai_quant.Prelude.Decimal.{Decimal, whole, percent_of}
use glassbox_ai_quant.Config.{Config}
use glassbox_ai_quant.Manage.Views.{
  Barrier, no_barrier, hold, PositionView, is_credit_view, unrealized_pnl, thesis_move_achieved,
  profit_target, stop_level, BellReason, may_carry, is_active,
}
use glassbox_ai_quant.Manage.Decide.{
  Tick, past_deadline, bell_word, speaks, is_armed, horizon_elapsed, tests, first, struck, decision,
  evaluate_position,
}

-- What a held position satisfies.
pub record IsQuiet (v : PositionView) (cfg : Config) (t : Tick) : Type 0 where
  pub before_deadline : past_deadline t ≡ false
  pub far_from_expiry : whole cfg.manage.min_hours_to_expiry ≤ℤ v.hours_to_expiry
  pub avoids_release : is_active t.macro_window ≡ true → is_credit_view v ≡ false
  pub thesis_open : cfg.manage.exit_on_thesis_complete ≡ true → thesis_move_achieved v cfg ≡ false
  pub above_stop : stop_level v cfg <ℤ unrealized_pnl v
  pub may_stay : bell_word v cfg t ≡ may_carry
  pub above_trail :
      is_armed cfg.manage.trail_arm_pct v cfg ≡ true
      → percent_of cfg.manage.trail_keep_pct v.peak_pnl <ℤ unrealized_pnl v
  pub above_entry :
      is_armed cfg.manage.breakeven_trigger_pct v cfg ≡ true → pos 0 <ℤ unrealized_pnl v
  pub below_target : unrealized_pnl v <ℤ profit_target v cfg
  pub unbanked : horizon_elapsed v t ≡ true → unrealized_pnl v ≤ℤ pos 0

speaks_lem : (w : BellReason) → (speaks w ≡ false) ↔ (w ≡ may_carry)
speaks_lem w = (λ h. ground arith, λ h. ground arith)

-- No test of a list passed.
abbrev pub NonePassed : List (Bool × Barrier) → Type 0
NonePassed = All (λ e. e.0 ≡ false)

-- Each entry returns with a barrier.
abbrev AllNamed : List (Bool × Barrier) → Type 0
AllNamed = All (λ e. e.1 ≢ no_barrier)

first_none : (l : List (Bool × Barrier)) → AllNamed l → (first l ≡ no_barrier) ↔ NonePassed l
first_none [] n = (λ h. tt, λ h. refl)
first_none ((test, b) ∷ rest) (named, n) = elim (Bool-cases test) [
  | inl e ↦ (λ h. absurd (named (ground arith)), λ h. ground arith)
  | inr e ↦ (
    λ h. (e, (first_none rest n).0 (ground arith)),
    λ h. ground (arith, (first_none rest n).1 h.1),
  )
]

module _ (v : PositionView) (cfg : Config) (t : Tick) where
  tests-AllNamed : AllNamed (tests v cfg t)
  unfolding tests
  tests-AllNamed = (cc, (cc, (cc, (cc, (cc, (cc, (cc, (cc, (cc, (cc, tt))))))))))

  -- The armed trail and the armed break-even barrier.
  armed :
      (pct low : Decimal)
      → (is_armed pct v cfg && leb_ℤ (unrealized_pnl v) low ≡ false)
        ↔ (is_armed pct v cfg ≡ true → low <ℤ unrealized_pnl v)
  armed pct low = (
    λ h e. (leb_ℤ-false (unrealized_pnl v) low).0 ((and-false _ _).0 h e),
    λ h. (and-false _ _).1 (λ e. (leb_ℤ-false (unrealized_pnl v) low).1 (h e)),
  )

  -- None of the tests passed exactly where the position is quiet.
  quiet : NonePassed (tests v cfg t) ↔ IsQuiet v cfg t
  unfolding tests
  quiet = (
    λ h. record {
      before_deadline = h.0;
      far_from_expiry =
          (ltb_ℤ-false v.hours_to_expiry (whole cfg.manage.min_hours_to_expiry)).0 h.1.0;
      avoids_release = (and-false _ _).0 h.1.1.0;
      thesis_open = (and-false _ _).0 h.1.1.1.0;
      above_stop = (leb_ℤ-false (unrealized_pnl v) (stop_level v cfg)).0 h.1.1.1.1.0;
      may_stay = (speaks_lem _).0 h.1.1.1.1.1.0;
      above_trail =
          (armed cfg.manage.trail_arm_pct (percent_of cfg.manage.trail_keep_pct v.peak_pnl)).0
            h.1.1.1.1.1.1.0;
      above_entry = (armed cfg.manage.breakeven_trigger_pct (pos 0)).0 h.1.1.1.1.1.1.1.0;
      below_target = (leb_ℤ-false (profit_target v cfg) (unrealized_pnl v)).0 h.1.1.1.1.1.1.1.1.0;
      unbanked = λ e.
          (ltb_ℤ-false (pos 0) (unrealized_pnl v)).0
            ((and-false (horizon_elapsed v t) _).0 h.1.1.1.1.1.1.1.1.1.0 e);
    },
    λ q. (
      q.before_deadline,
      (
        (ltb_ℤ-false v.hours_to_expiry (whole cfg.manage.min_hours_to_expiry)).1 q.far_from_expiry,
        (
          (and-false _ _).1 q.avoids_release,
          (
            (and-false _ _).1 q.thesis_open,
            (
              (leb_ℤ-false (unrealized_pnl v) (stop_level v cfg)).1 q.above_stop,
              (
                (speaks_lem _).1 q.may_stay,
                (
                  (armed cfg.manage.trail_arm_pct
                        (percent_of cfg.manage.trail_keep_pct v.peak_pnl)).1
                      q.above_trail,
                  (
                    (armed cfg.manage.breakeven_trigger_pct (pos 0)).1 q.above_entry,
                    (
                      (leb_ℤ-false (profit_target v cfg) (unrealized_pnl v)).1 q.below_target,
                      (
                        (and-false (horizon_elapsed v t) _).1
                            (λ e. (ltb_ℤ-false (pos 0) (unrealized_pnl v)).1 (q.unbanked e)),
                        tt,
                      ),
                    ),
                  ),
                ),
              ),
            ),
          ),
        ),
      ),
    ),
  )

  holds_lem : (b : Barrier) → ((decision b (unrealized_pnl v)).action ≡ hold) ↔ (b ≡ no_barrier)
  holds_lem b = (λ h. ground arith, λ h. ground arith)

  -- `evaluate_position` holds the position exactly when it is quiet: the session goes on, the
  -- expiry is far, no release is near for a credit, the thesis is open where its completion is
  -- configured to close, the P&L is above the stop and, once armed, above the trail and the entry,
  -- below the target, not a profit past the horizon, and the bell gate lets it stay.
  pub hold_exact : ((evaluate_position v cfg t).action ≡ hold) ↔ IsQuiet v cfg t
  unfolding evaluate_position struck
  hold_exact = (
    λ h. quiet.0 ((first_none (tests v cfg t) tests-AllNamed).0 ((holds_lem _).0 h)),
    λ q. (holds_lem _).1 ((first_none (tests v cfg t) tests-AllNamed).1 (quiet.1 q)),
  )

-- A list split at the first test that passed, which named `b`.
pub record FirstPassed (l : List (Bool × Barrier)) (b : Barrier) : Type 0 where
  pub before : List (Bool × Barrier)
  pub after : List (Bool × Barrier)
  pub splits : l ≡ before ++ ((true, b) ∷ after)
  pub silent : NonePassed before

first_lem : (l : List (Bool × Barrier)) → first l ≢ no_barrier → FirstPassed l (first l)
first_lem [] n = absurd (n refl)
first_lem ((true, b) ∷ rest) n = record { before = []; after = rest; splits = refl; silent = tt }
first_lem ((false, b) ∷ rest) n =
    let r = first_lem rest n in
    record {
      before = (false, b) ∷ r.before;
      after = r.after;
      splits = ap (λ l. (false, b) ∷ l) r.splits;
      silent = (refl, r.silent);
    }

-- A barrier that closes a position is the first in the order of the code whose test passed: its own
-- test did, and every test before it failed.
pub most_severe_first :
    (v : PositionView) (cfg : Config) (t : Tick)
    → struck v cfg t ≢ no_barrier
    → FirstPassed (tests v cfg t) (struck v cfg t)
unfolding struck
most_severe_first v cfg t n = first_lem (tests v cfg t) n
