-- ===== src/Sizing/Tapers.antt =====
-- The ranges of the tapers and of the multiplier of glassbox/sizing.py.
use glassbox_ai_quant.Prelude.{Bool-cases, ◌≡◌, inl, inr, false, ◌||◌, arith}
use glassbox_ai_quant.Prelude.Int.{
  pos, ◌-ℤ◌, abs, ◌≤ℤ◌, ◌<ℤ◌, ltb_ℤ, leb_ℤ, min_ℤ, le-min_ℤ, max_ℤ-ge_left, max_ℤ-le, int_laws,
}
use glassbox_ai_quant.Prelude.Decimal.{Decimal, whole, times, over, percent_of}
use glassbox_ai_quant.Prelude.Rounding.{times_nonneg, over_nonneg, times-le, over-le_one}
use glassbox_ai_quant.Config.{Config}
use glassbox_ai_quant.Sizing.{taper, heat_taper, drawdown_taper, meta_multiplier}

-- Between the floor and one.
abbrev pub IsTapered : Decimal → Decimal → Type 0
IsTapered floor x = (floor ≤ℤ x) × (x ≤ℤ whole 1)

-- How far past its start a budget is used, as a fraction of what is left.
span_of : Decimal → Decimal → Decimal
span_of u start = over (min_ℤ u (whole 1) -ℤ start) (whole 1 -ℤ start)

span_nonneg : (u start : Decimal) → start <ℤ u → start <ℤ whole 1 → pos 0 ≤ℤ span_of u start
unfolding span_of
span_nonneg u start p q =
    over_nonneg (min_ℤ u (whole 1) -ℤ start) (whole 1 -ℤ start)
      (omega (int_laws, le-min_ℤ u (whole 1) start (omega arith) (omega arith))) (omega int_laws)

-- A taper never falls below its floor and never raises a position above its size.
pub taper_range :
    (u start floor : Decimal)
    → pos 0 ≤ℤ floor
    → floor ≤ℤ whole 1
    → IsTapered floor (taper u start floor)
unfolding taper span_of
taper_range u start floor p q = elim (Bool-cases (leb_ℤ u start || leb_ℤ (whole 1) start)) [
  | inl e ↦ rw e (q, omega arith)
  | inr e ↦ rw e (
    max_ℤ-ge_left floor (whole 1 -ℤ cut),
    max_ℤ-le floor (whole 1 -ℤ cut) (whole 1) q (omega (int_laws, cut_nonneg e)),
  )
]
  where
    cut : Decimal
    cut = times (whole 1 -ℤ floor) (span_of u start)

    cut_nonneg : (leb_ℤ u start || leb_ℤ (whole 1) start) ≡ false → pos 0 ≤ℤ cut
    cut_nonneg e =
        times_nonneg (whole 1 -ℤ floor) (span_of u start) (omega int_laws)
          (span_nonneg u start (ground arith) (ground arith))

-- Where its floor is a fraction, the heat taper lies between the floor and one.
pub heat_taper_range :
    (heat equity : Decimal) (cfg : Config)
    → pos 0 ≤ℤ cfg.sizing.heat_taper_floor
    → cfg.sizing.heat_taper_floor ≤ℤ whole 1
    → IsTapered cfg.sizing.heat_taper_floor (heat_taper heat equity cfg)
unfolding heat_taper
heat_taper_range heat equity cfg p q = ground (
  arith,
  taper_range (over heat (percent_of cfg.risk.portfolio_heat_pct equity))
      cfg.sizing.heat_taper_start cfg.sizing.heat_taper_floor p q,
)

-- Where its floor is a fraction, the drawdown taper lies between the floor and one, and it is one
-- on a day that has lost nothing.
pub drawdown_taper_range :
    (pnl : Decimal) (cfg : Config)
    → pos 0 ≤ℤ cfg.sizing.drawdown_taper_floor
    → cfg.sizing.drawdown_taper_floor ≤ℤ whole 1
    → IsTapered cfg.sizing.drawdown_taper_floor (drawdown_taper pnl cfg)
      × (pos 0 ≤ℤ pnl → drawdown_taper pnl cfg ≡ whole 1)
unfolding drawdown_taper
drawdown_taper_range pnl cfg p q = (
  ground (
    arith,
    taper_range (over (abs pnl) cfg.risk.daily_loss_halt_pct) cfg.sizing.drawdown_taper_start
        cfg.sizing.drawdown_taper_floor p q,
  ),
  λ h. ground arith,
)

-- The multipliers of the configuration are in order, and so are the two probabilities.
pub record IsOrdered (cfg : Config) : Type 0 where
  pub floor_nonneg : pos 0 ≤ℤ cfg.sizing.meta_multiplier_floor
  pub floor_le : cfg.sizing.meta_multiplier_floor ≤ℤ cfg.sizing.meta_multiplier_ceiling
  pub p_lt : cfg.risk.min_meta_label_p <ℤ cfg.sizing.meta_multiplier_ceiling_p

-- Where the configured multipliers and probabilities are in order, `meta_multiplier` is zero below
-- the threshold, and from it on lies between the configured floor and ceiling.
pub meta_multiplier_range :
    (p : Decimal) (cfg : Config)
    → IsOrdered cfg
    → (p <ℤ cfg.risk.min_meta_label_p → meta_multiplier p cfg ≡ pos 0)
      × (cfg.risk.min_meta_label_p ≤ℤ p
          → (cfg.sizing.meta_multiplier_floor ≤ℤ meta_multiplier p cfg)
            × (meta_multiplier p cfg ≤ℤ cfg.sizing.meta_multiplier_ceiling))
unfolding meta_multiplier
meta_multiplier_range p cfg o = (λ h. ground arith, λ h. above h)
  where
    floor_p : Decimal
    floor_p = cfg.risk.min_meta_label_p

    ceiling_p : Decimal
    ceiling_p = cfg.sizing.meta_multiplier_ceiling_p

    rise : Decimal
    rise = cfg.sizing.meta_multiplier_ceiling -ℤ cfg.sizing.meta_multiplier_floor

    share : Decimal
    share = over (p -ℤ floor_p) (ceiling_p -ℤ floor_p)

    part : floor_p ≤ℤ p → p <ℤ ceiling_p → (pos 0 ≤ℤ times rise share) × (times rise share ≤ℤ rise)
    part a b =
        let up : pos 0 ≤ℤ rise = omega (int_laws, o.floor_le) in
        let some_share : pos 0 ≤ℤ share =
          over_nonneg (p -ℤ floor_p) (ceiling_p -ℤ floor_p) (omega int_laws) (omega int_laws) in
        let no_more : share ≤ℤ whole 1 =
          over-le_one (p -ℤ floor_p) (ceiling_p -ℤ floor_p) (omega int_laws) (omega int_laws)
            (omega int_laws) in
        (times_nonneg rise share up some_share, times-le rise share up some_share no_more)

    above :
        floor_p ≤ℤ p
        → (cfg.sizing.meta_multiplier_floor ≤ℤ meta_multiplier p cfg)
          × (meta_multiplier p cfg ≤ℤ cfg.sizing.meta_multiplier_ceiling)
    above a = elim (Bool-cases (ltb_ℤ p floor_p)) [
      | inl e ↦ absurd (ground arith)
      | inr e ↦ rw e (elim (Bool-cases (leb_ℤ ceiling_p p)) [
        | inl f ↦ rw f (o.floor_le, omega arith)
        | inr f ↦
            rw f (omega (int_laws, part a (ground arith)), omega (int_laws, part a (ground arith)))
      ])
    ]
