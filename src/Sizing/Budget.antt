-- ===== src/Sizing/Budget.antt =====
-- The risk budget of glassbox/sizing.py: conviction and context only ever reduce it.
use glassbox_ai_quant.Prelude.{leb, Bool-cases, ◌≡◌, inl, inr, true, arith}
use glassbox_ai_quant.Prelude.Int.{
  pos, negsuc, ◌*ℤ◌, ◌≤ℤ◌, ltb_ℤ, min_ℤ, floor_div, min_ℤ-le_right, max_ℤ-ge_left, max_ℤ-le,
}
use glassbox_ai_quant.Prelude.Decimal.{Decimal, whole, times, over, percent_of}
use glassbox_ai_quant.Prelude.Rounding.{times_nonneg, times-le}
use glassbox_ai_quant.Config.{Config}
use glassbox_ai_quant.Sizing.{
  meta_multiplier, SizingResult, is_approved, sized, SizingInput, base_risk, multiplier, clamped,
  risk_dollars, size_position,
}
use glassbox_ai_quant.Sizing.Tapers.{IsOrdered, meta_multiplier_range}
use glassbox_ai_quant.Sizing.Caps.{size_position-IsCapped}

-- The multipliers of the configuration are fractions.
pub record IsPrudent (cfg : Config) : Type 0 where
  pub ordered : IsOrdered cfg
  pub ceiling_le_one : cfg.sizing.meta_multiplier_ceiling ≤ℤ whole 1
  pub abstain_nonneg : pos 0 ≤ℤ cfg.sizing.abstain_multiplier
  pub abstain_le_one : cfg.sizing.abstain_multiplier ≤ℤ whole 1

abbrev IsFraction : Decimal → Type 0
IsFraction x = (pos 0 ≤ℤ x) × (x ≤ℤ whole 1)

meta_multiplier-IsFraction :
    (p : Decimal) (cfg : Config) → IsPrudent cfg → IsFraction (meta_multiplier p cfg)
meta_multiplier-IsFraction p cfg c =
    let (low, high) = meta_multiplier_range p cfg c.ordered in
    elim (Bool-cases (ltb_ℤ p cfg.risk.min_meta_label_p)) [
      | inl e ↦ rw (low (ground arith)) (omega arith, omega arith)
      | inr e ↦
          let (a, b) = high (ground arith) in
          (omega (arith, a, c.ordered.floor_nonneg), omega (arith, b, c.ceiling_le_one))
    ]

multiplier-IsFraction :
    (i : SizingInput) (cfg : Config) → IsPrudent cfg → IsFraction (multiplier i cfg)
unfolding multiplier
multiplier-IsFraction i cfg c = ground (arith, meta_multiplier-IsFraction i.meta_label_p cfg c)

clamped-IsFraction : (x : Decimal) → IsFraction (clamped x)
clamped-IsFraction x = (
  max_ℤ-ge_left (pos 0) (min_ℤ x (whole 1)),
  max_ℤ-le (pos 0) (min_ℤ x (whole 1)) (whole 1) (omega arith) (min_ℤ-le_right x (whole 1)),
)

half-le : (a : Decimal) → pos 0 ≤ℤ a → (pos 0 ≤ℤ over a (whole 2)) × (over a (whole 2) ≤ℤ a)
unfolding over floor_div ◌*ℤ◌
half-le (pos a) p = (ground arith, ground arith)
half-le (negsuc a) p = absurd (omega arith)

module _ (i : SizingInput) (cfg : Config) (c : IsPrudent cfg)
    (solvent : pos 0 ≤ℤ base_risk i cfg) where
  -- The budget of a trade is never negative and never above the base risk.
  pub risk_dollars_range : (pos 0 ≤ℤ risk_dollars i cfg) × (risk_dollars i cfg ≤ℤ base_risk i cfg)
  unfolding risk_dollars
  risk_dollars_range =
      let (m, m1) = multiplier-IsFraction i cfg c in
      let (x, x1) = clamped-IsFraction i.context_multiplier in
      let a = times (base_risk i cfg) (multiplier i cfg) in
      let a0 = times_nonneg (base_risk i cfg) (multiplier i cfg) solvent m in
      let a1 = times-le (base_risk i cfg) (multiplier i cfg) solvent m m1 in
      let r0 = times_nonneg a (clamped i.context_multiplier) a0 x in
      let r1 = times-le a (clamped i.context_multiplier) a0 x x1 in
      let h = half-le (times a (clamped i.context_multiplier)) r0 in
      elim (Bool-cases (leb cfg.risk.loss_streak_half_size i.loss_streak)) [
        | inl e ↦ rw e (h.0, omega (arith, h, a1, r1))
        | inr e ↦ rw e (r0, omega (arith, a1, r1))
      ]

  -- Where the configured multipliers are ordered fractions and the base risk is not negative, an
  -- approved size can lose at most the configured risk of a trade and at most the cap of a
  -- position, whatever the model's confidence, the volatility and the context.
  pub approved_size_capped :
      (r : SizingResult)
      → size_position i cfg ≡ sized r
      → is_approved r ≡ true
      → (r.qty *ℤ i.max_loss_per_spread ≤ℤ base_risk i cfg)
        × (r.qty *ℤ i.max_loss_per_spread ≤ℤ percent_of cfg.risk.max_loss_per_position_pct i.equity)
  approved_size_capped r e h =
      let (cap, risk, _) = size_position-IsCapped i cfg r e h in
      (omega (arith, risk, risk_dollars_range), cap)
