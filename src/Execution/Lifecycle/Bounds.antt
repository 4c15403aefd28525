-- ===== src/Execution/Lifecycle/Bounds.antt =====
-- What bounds the waiting and the prices of glassbox/execution/lifecycle.py.
use glassbox_ai_quant.Prelude.{Bool-cases, ◌≡◌, ap, inl, inr, Option, none, some, arith}
use glassbox_ai_quant.Prelude.Int.{
  pos, pos_part, neg_part, ◌+ℤ◌, ◌-ℤ◌, ◌≤ℤ◌, ◌<ℤ◌, ltb_ℤ, leb_ℤ, ◌==ℤ◌, min_ℤ, max_ℤ, min_ℤ-le_left,
  min_ℤ-le_right, le-min_ℤ, max_ℤ-ge_left, max_ℤ-ge_right, int_laws, ltb_ℤ-false, leb_ℤ-false,
}
use glassbox_ai_quant.Prelude.Decimal.{Decimal, whole, times, over}
use glassbox_ai_quant.Prelude.Rounding.{over_nonneg, one-le-over, le-times, le-over}
use glassbox_ai_quant.Prelude.Cents.{cent, round_cents, round_cents-le, round_cents_mono}
use glassbox_ai_quant.Config.{ExecutionCfg, Config}
use glassbox_ai_quant.Store.{Position}
use glassbox_ai_quant.Execution.Lifecycle.Prices.{
  spread_pct, base_budget, cap_budget, scaled_budget, entry_budget_seconds, full_step,
  concession_cap, with_step, next_rung, concession, worse_price,
}

scaled_range :
    (ex : ExecutionCfg) (spread : Option Decimal)
    → pos 0 ≤ℤ base_budget ex
    → pos 0 <ℤ ex.entry_timeout_reference_spread_pct
    → (min_ℤ (base_budget ex) (cap_budget ex) ≤ℤ scaled_budget ex spread)
      × (scaled_budget ex spread ≤ℤ max_ℤ (base_budget ex) (cap_budget ex))
unfolding scaled_budget
scaled_range ex none h p = (min_ℤ-le_left _ _, max_ℤ-ge_left _ _)
scaled_range ex (some spread) h p =
    let ref = ex.entry_timeout_reference_spread_pct in
    let base = base_budget ex in
    let cap = cap_budget ex in
    elim (Bool-cases (leb_ℤ spread ref)) [
      | inl e ↦ rw e (min_ℤ-le_left base cap, max_ℤ-ge_left base cap)
      | inr e ↦
          let wide = (leb_ℤ-false spread ref).0 e in
          let grown = le-times base (over spread ref) h (one-le-over spread ref p (omega arith)) in
          rw e (
            le-min_ℤ cap (times base (over spread ref)) (min_ℤ base cap) (min_ℤ-le_right base cap)
                (omega (arith, min_ℤ-le_left base cap, grown)),
            omega
                (arith, min_ℤ-le_left cap (times base (over spread ref)), max_ℤ-ge_right base cap),
          )
    ]

-- An entry may rest at least for the smaller and at most for the larger of the two configured times,
-- whatever its quoted spread, if the first is not negative.
pub entry_budget_range :
    (cfg : Config) (row : Option Position)
    → pos 0 ≤ℤ base_budget cfg.execution
    → let ex = cfg.execution in
      (min_ℤ (base_budget ex) (cap_budget ex) ≤ℤ entry_budget_seconds cfg row)
      × (entry_budget_seconds cfg row ≤ℤ max_ℤ (base_budget ex) (cap_budget ex))
unfolding entry_budget_seconds
entry_budget_range cfg none h = (min_ℤ-le_left _ _, max_ℤ-ge_left _ _)
entry_budget_range cfg (some row) h =
    let ref = cfg.execution.entry_timeout_reference_spread_pct in
    elim (Bool-cases (leb_ℤ ref (pos 0))) [
      | inl e ↦ rw e (min_ℤ-le_left _ _, max_ℤ-ge_left _ _)
      | inr e ↦
          rw e
            (scaled_range cfg.execution (spread_pct row.features) h ((leb_ℤ-false ref (pos 0)).0 e))
    ]

with_step_lem :
    (old step new : Decimal) → with_step old step ≡ some new → new ≡ round_cents (old +ℤ step)
unfolding with_step
with_step_lem old step new e = elim (Bool-cases (round_cents (old +ℤ step) ==ℤ pos 0)) [
  | inl z ↦ absurd (ground (arith, (rw z at e)))
  | inr z ↦ ground (arith, (rw z at e))
]

full_step-ge_tick :
    (ex : ExecutionCfg) (origin spread : Decimal)
    → ex.entry_ladder_tick ≤ℤ full_step ex origin spread
unfolding full_step
full_step-ge_tick ex origin spread = max_ℤ-ge_left ex.entry_ladder_tick _

stepped :
    (ex : ExecutionCfg) (origin old step new : Decimal)
    → round_cents (old +ℤ ex.entry_ladder_tick) ≡ old +ℤ ex.entry_ladder_tick
    → ex.entry_ladder_tick ≤ℤ step
    → (old -ℤ origin) +ℤ step ≤ℤ concession_cap ex origin +ℤ pos 5000
    → with_step old step ≡ some new
    → (old +ℤ ex.entry_ladder_tick ≤ℤ new) × (new -ℤ origin ≤ℤ concession_cap ex origin +ℤ pos cent)
stepped ex origin old step new w tick h e =
    let tick_up = old +ℤ ex.entry_ladder_tick in
    let grown = round_cents_mono tick_up (old +ℤ step) (omega (int_laws, tick)) in
    rw (with_step_lem old step new e) (
      omega (arith, grown, ap pos_part w, ap neg_part w),
      omega (int_laws, h, round_cents-le (old +ℤ step)),
    )

-- The next rung of the ladder asks for at least a tick more than the resting price, where that is a
-- whole number of cents, and for at most a cent more than the configured share of the first price.
pub rung_bounded :
    (ex : ExecutionCfg) (origin old spread new : Decimal)
    → round_cents (old +ℤ ex.entry_ladder_tick) ≡ old +ℤ ex.entry_ladder_tick
    → next_rung ex origin old spread ≡ some new
    → (old +ℤ ex.entry_ladder_tick ≤ℤ new) × (new -ℤ origin ≤ℤ concession_cap ex origin +ℤ pos cent)
unfolding next_rung
rung_bounded ex origin old spread new w e =
    let step = full_step ex origin spread in
    let cap = concession_cap ex origin in
    let left = round_cents (cap -ℤ (old -ℤ origin)) in
    elim (Bool-cases (ltb_ℤ cap ((old -ℤ origin) +ℤ step))) [
      | inr within ↦
          stepped ex origin old step new w (full_step-ge_tick ex origin spread)
            (omega (int_laws, (ltb_ℤ-false cap ((old -ℤ origin) +ℤ step)).0 within))
            (rw within at e)
      | inl over_cap ↦ elim (Bool-cases (ltb_ℤ left ex.entry_ladder_tick)) [
        | inl short_of ↦ absurd (ground (arith, (rw (over_cap, short_of) at e)))
        | inr enough ↦
            stepped ex origin old left new w ((ltb_ℤ-false left ex.entry_ladder_tick).0 enough)
              (omega (int_laws, round_cents-le (cap -ℤ (old -ℤ origin))))
              (rw (over_cap, enough) at e)
      ]
    ]

conceded : (old new : Decimal) → round_cents old ≡ old → old ≤ℤ new → old ≤ℤ round_cents new
conceded old new w h = omega (arith, round_cents_mono old new h, ap pos_part w, ap neg_part w)

-- An escalated close gives at least what the resting order gave, where that is a whole number of cents
-- and the configured escalation is not negative.
pub worse_price_concedes :
    (ex : ExecutionCfg) (old : Decimal)
    → pos 0 ≤ℤ ex.close_escalation_pct
    → round_cents old ≡ old
    → old ≤ℤ worse_price ex old
unfolding worse_price concession
worse_price_concedes ex old h w =
    let more = over_nonneg ex.close_escalation_pct (whole 100) h (omega arith) in
    let c = whole 1 +ℤ over ex.close_escalation_pct (whole 100) in
    elim (Bool-cases (ltb_ℤ (pos 0) old)) [
      | inl e ↦ rw e (
          conceded old (times old c) w
            (le-times old c (ground (arith, e)) (omega (int_laws, more))))
      | inr e ↦ rw e (
          conceded old (over old c) w
            (le-over old c ((ltb_ℤ-false (pos 0) old).0 e) (omega (int_laws, more))))
    ]
