-- ===== src/Manage/Stops.antt =====
-- The labels and the stop levels of glassbox/manage.py.
use glassbox_ai_quant.Prelude.{
  Bool-cases, All, ℕ, ◌≡◌, refl, ap, ◌≢◌, inl, inr, Bool, true, false, some, List, [], ◌∷◌, arith,
}
use glassbox_ai_quant.Prelude.Int.{
  ℤ, pos, ◌*ℤ◌, neg, abs, ◌≤ℤ◌, ◌<ℤ◌, ltb_ℤ, leb_ℤ, min_ℤ, neg_parts, min_ℤ-le_right, le-min_ℤ,
  scaled_parts, neg_part-eq-zero,
}
use glassbox_ai_quant.Prelude.Decimal.{Decimal, whole, over, percent_of}
use glassbox_ai_quant.Prelude.Rounding.{times_nonneg, over_nonneg}
use glassbox_ai_quant.Config.{Config}
use glassbox_ai_quant.Manage.Views.{
  Barrier, profit, stop, time, breakeven, trail, bell, deadline, expiry_risk, macro_risk,
  thesis_broken, thesis_complete, no_barrier, close, PositionView, is_credit_view, entry_premium,
  unrealized_pnl, profit_target, stop_loss, stop_level,
}
use glassbox_ai_quant.Manage.Decide.{Tick, tests, first, struck, decision, evaluate_position}
use glassbox_ai_quant.Manage.Order.{FirstPassed, most_severe_first}

barrier_lem : (b : Barrier) (p : Decimal) → (decision b p).barrier ≡ b
barrier_lem b p = ground arith

pnl_lem : (b : Barrier) (p : Decimal) → (decision b p).pnl ≡ p
pnl_lem b p = ground arith

closes_lem : (b : Barrier) (p : Decimal) → (decision b p).action ≡ close → b ≢ no_barrier
closes_lem b p h e = ground arith

-- What the barriers whose label is fixed say of the P&L.
MeansPnl : PositionView → Config → Barrier → Type 0
MeansPnl v cfg stop = unrealized_pnl v ≤ℤ stop_level v cfg
MeansPnl v cfg profit = profit_target v cfg ≤ℤ unrealized_pnl v
MeansPnl v cfg _ = Unit

first_means :
    (P : Barrier → Type 0) (l : List (Bool × Barrier))
    → All (λ e. e.0 ≡ true → P e.1) l
    → first l ≢ no_barrier
    → P (first l)
first_means P [] h n = absurd (n refl)
first_means P ((true, b) ∷ rest) h n = h.0 refl
first_means P ((false, b) ∷ rest) h n = first_means P rest h.1 n

leb_ℤ-true : (a b : ℤ) → leb_ℤ a b ≡ true → a ≤ℤ b
leb_ℤ-true a b h = ground arith

module _ (v : PositionView) (cfg : Config) (t : Tick) where
  struck_means : struck v cfg t ≢ no_barrier → MeansPnl v cfg (struck v cfg t)
  unfolding struck tests MeansPnl
  struck_means n =
      first_means (MeansPnl v cfg) (tests v cfg t)
        (
          λ h. tt,
          (
            λ h. tt,
            (
              λ h. tt,
              (
                λ h. tt,
                (
                  leb_ℤ-true (unrealized_pnl v) (stop_level v cfg),
                  (
                    λ h. tt,
                    (
                      λ h. tt,
                      (
                        λ h. tt,
                        (leb_ℤ-true (profit_target v cfg) (unrealized_pnl v), (λ h. tt, tt)),
                      ),
                    ),
                  ),
                ),
              ),
            ),
          ),
        )
        n

  label_lem :
      (b : Barrier)
      → pos 0 <ℤ profit_target v cfg
      → stop_level v cfg ≤ℤ pos 0
      → MeansPnl v cfg b
      → b ≢ no_barrier
      → (decision b (unrealized_pnl v)).label ≡ some (ltb_ℤ (pos 0) (unrealized_pnl v))
  unfolding MeansPnl
  label_lem stop p q m n = ap some (ground arith)
  label_lem profit p q m n = ap some (ground arith)
  label_lem no_barrier p q m n = absurd (n refl)
  label_lem time p q m n = refl
  label_lem breakeven p q m n = refl
  label_lem trail p q m n = refl
  label_lem bell p q m n = refl
  label_lem deadline p q m n = refl
  label_lem expiry_risk p q m n = refl
  label_lem macro_risk p q m n = refl
  label_lem thesis_broken p q m n = refl
  label_lem thesis_complete p q m n = refl

  -- Where the target is above zero and the stop level is not, every close of `evaluate_position` is
  -- labelled a win exactly when the P&L it reports is above zero, whichever barrier closed it.
  pub label_exact :
      pos 0 <ℤ profit_target v cfg
      → stop_level v cfg ≤ℤ pos 0
      → (evaluate_position v cfg t).action ≡ close
      → (evaluate_position v cfg t).label ≡ some (ltb_ℤ (pos 0) (evaluate_position v cfg t).pnl)
  unfolding evaluate_position
  label_exact p q h =
      let n = closes_lem (struck v cfg t) (unrealized_pnl v) h in
      rw (pnl_lem (struck v cfg t) (unrealized_pnl v))
        (label_lem (struck v cfg t) p q (struck_means n) n)

  -- A position is closed by the first barrier in the order of the code whose test passed: its own
  -- test did, and every test before it failed.
  pub closes_at_first :
      (evaluate_position v cfg t).action ≡ close
      → FirstPassed (tests v cfg t) (evaluate_position v cfg t).barrier
  unfolding evaluate_position
  closes_at_first h =
      rw (barrier_lem (struck v cfg t) (unrealized_pnl v))
        (most_severe_first v cfg t (closes_lem (struck v cfg t) (unrealized_pnl v) h))

scaled_nonneg : (k : ℕ) (a : ℤ) → pos 0 ≤ℤ a → pos 0 ≤ℤ pos k *ℤ a
scaled_nonneg k a h = rw ((scaled_parts k a).1, neg_part-eq-zero a h) (omega arith)

percent_of_nonneg : (p a : ℤ) → pos 0 ≤ℤ p → pos 0 ≤ℤ a → pos 0 ≤ℤ percent_of p a
unfolding percent_of
percent_of_nonneg p a h k =
    times_nonneg a (over p (whole 100)) k (over_nonneg p (whole 100) h (omega arith))

stop_loss_nonneg :
    (v : PositionView) (cfg : Config)
    → pos 0 ≤ℤ cfg.manage.stop_multiple_of_credit
    → pos 0 ≤ℤ cfg.manage.debit_stop_pct
    → pos 0 ≤ℤ stop_loss v cfg
unfolding stop_loss abs
stop_loss_nonneg v cfg c d = elim (Bool-cases (is_credit_view v)) [
  | inl e ↦ rw e (
      scaled_nonneg v.qty _
        (scaled_nonneg 100 _ (times_nonneg (entry_premium v) _ (omega arith) c)))
  | inr e ↦ rw e (
      scaled_nonneg v.qty _
        (scaled_nonneg 100 _ (percent_of_nonneg _ (entry_premium v) d (omega arith))))
]

neg_antitone : (a b : ℤ) → a ≤ℤ b → neg b ≤ℤ neg a
neg_antitone a b h = omega (arith, neg_parts a, neg_parts b)

-- Where the maximum loss of a spread, the stop's multiple and its percentage are not negative,
-- `stop_level` is between the whole risk of the position as a loss and zero.
pub stop_level_range :
    (v : PositionView) (cfg : Config)
    → pos 0 ≤ℤ v.max_loss_per_spread
    → pos 0 ≤ℤ cfg.manage.stop_multiple_of_credit
    → pos 0 ≤ℤ cfg.manage.debit_stop_pct
    → (neg (pos v.qty *ℤ v.max_loss_per_spread) ≤ℤ stop_level v cfg) × (stop_level v cfg ≤ℤ pos 0)
unfolding stop_level
stop_level_range v cfg m c d =
    let risk = pos v.qty *ℤ v.max_loss_per_spread in
    let least =
      le-min_ℤ (stop_loss v cfg) risk (pos 0) (stop_loss_nonneg v cfg c d)
        (scaled_nonneg v.qty v.max_loss_per_spread m) in
    (
      neg_antitone (min_ℤ (stop_loss v cfg) risk) risk (min_ℤ-le_right (stop_loss v cfg) risk),
      omega (arith, neg_parts (min_ℤ (stop_loss v cfg) risk), least),
    )
