-- ===== src/Sizing/Haircuts.antt =====
-- A smaller context multiplier never makes a position of glassbox/sizing.py larger.
use glassbox_ai_quant.Prelude.{leb, Bool-cases, ◌≡◌, refl, inl, inr, Option, none, some, arith}
use glassbox_ai_quant.Prelude.Int.{
  ℤ, pos, negsuc, ◌≤ℤ◌, ◌<ℤ◌, ltb_ℤ, leb_ℤ, ◌==ℤ◌, min_ℤ, floor_div, min_ℤ_mono, max_ℤ_mono,
}
use glassbox_ai_quant.Prelude.Decimal.{Decimal, whole, times, over, percent_of}
use glassbox_ai_quant.Prelude.Rounding.{
  floor_div_mono, over_mono, times_nonneg, over_nonneg, times_mono_right,
}
use glassbox_ai_quant.Config.{Config}
use glassbox_ai_quant.Sizing.{
  SizingOutcome, sized, value_error, zero_division, SizingInput, base_risk, multiplier, clamped,
  risk_dollars, target_or_default, vol_budget, affordable, finish, with_vol, size_position,
}

abbrev pub with_context : Decimal → SizingInput → SizingInput
with_context c i = record i { context_multiplier = c }

-- The inputs under which a budget is not negative.
pub record IsSolvent (i : SizingInput) (cfg : Config) : Type 0 where
  pub base_nonneg : pos 0 ≤ℤ base_risk i cfg
  pub equity_nonneg : pos 0 ≤ℤ i.equity
  pub pct_nonneg : pos 0 ≤ℤ cfg.risk.r_per_trade_pct
  pub target_nonneg : pos 0 ≤ℤ target_or_default i cfg
  pub loss_pos : pos 0 <ℤ i.max_loss_per_spread
  pub multiplier_nonneg : pos 0 ≤ℤ multiplier i cfg

-- Two outcomes of one kind, the first with no larger quantity.
abbrev pub IsNoLarger : SizingOutcome → SizingOutcome → Type 0
IsNoLarger (sized r') (sized r) = r'.qty ≤ℤ r.qty
IsNoLarger zero_division zero_division = Unit
IsNoLarger value_error value_error = Unit
IsNoLarger _ _ = ⊥

module _ (i : SizingInput) (cfg : Config) (s : IsSolvent i cfg) (c : Decimal)
    (less : c ≤ℤ i.context_multiplier) where
  abbrev cut : SizingInput
  cut = with_context c i

  risk_mono : risk_dollars cut cfg ≤ℤ risk_dollars i cfg
  unfolding risk_dollars multiplier
  risk_mono =
      let a = times (base_risk i cfg) (multiplier i cfg) in
      let a0 =
        times_nonneg (base_risk i cfg) (multiplier i cfg) s.base_nonneg s.multiplier_nonneg in
      let clamp =
        max_ℤ_mono (pos 0) (min_ℤ c (whole 1)) (pos 0) (min_ℤ i.context_multiplier (whole 1))
          (omega arith)
          (min_ℤ_mono c (whole 1) i.context_multiplier (whole 1) less (omega arith)) in
      let r = times_mono_right a (clamped c) (clamped i.context_multiplier) a0 clamp in
      let h =
        over_mono (times a (clamped c)) (times a (clamped i.context_multiplier)) (whole 2)
          (omega arith) r in
      elim (Bool-cases (leb cfg.risk.loss_streak_half_size i.loss_streak)) [
        | inl e ↦ rw e h
        | inr e ↦ rw e r
      ]

  vol_mono :
      (v : Decimal)
      → pos 0 <ℤ v
      → pos 0 <ℤ base_risk i cfg
      → vol_budget cut cfg v ≤ℤ vol_budget i cfg v
  unfolding vol_budget
  vol_mono v p b =
      let lever = over (times i.equity (target_or_default i cfg)) v in
      let part = over cfg.risk.r_per_trade_pct (whole 100) in
      times_mono_right (times lever part) (over (risk_dollars cut cfg) (base_risk i cfg))
        (over (risk_dollars i cfg) (base_risk i cfg))
        (times_nonneg lever part
          (over_nonneg (times i.equity (target_or_default i cfg)) v
            (times_nonneg i.equity (target_or_default i cfg) s.equity_nonneg s.target_nonneg)
            (omega arith))
          (over_nonneg cfg.risk.r_per_trade_pct (whole 100) s.pct_nonneg (omega arith)))
        (over_mono (risk_dollars cut cfg) (risk_dollars i cfg) (base_risk i cfg) b risk_mono)

  affordable_mono : (a b : Decimal) → a ≤ℤ b → affordable a i ≤ℤ affordable b i
  affordable_mono a b h = positive i.max_loss_per_spread s.loss_pos
    where
      positive : (m : ℤ) → pos 0 <ℤ m → floor_div a m ≤ℤ floor_div b m
      positive (pos m) p = floor_div_mono a b m (omega arith) h
      positive (negsuc m) p = absurd (omega arith)

  finish_mono :
      (f v f' v' : ℤ) → f' ≤ℤ f → v' ≤ℤ v → (finish cut cfg f' v').qty ≤ℤ (finish i cfg f v).qty
  unfolding finish
  finish_mono f v f' v' h k =
      let cap = affordable (percent_of cfg.risk.max_loss_per_position_pct i.equity) i in
      ground (
        arith,
        min_ℤ_mono (min_ℤ f' v') cap (min_ℤ f v) cap (min_ℤ_mono f' v' f v h k) (omega arith),
      )

  abbrev fixed : ℤ
  fixed = affordable (risk_dollars i cfg) i

  abbrev fixed_cut : ℤ
  fixed_cut = affordable (risk_dollars cut cfg) i

  fixed_mono : fixed_cut ≤ℤ fixed
  fixed_mono = affordable_mono (risk_dollars cut cfg) (risk_dollars i cfg) risk_mono

  with_vol_mono : (vol : Option Decimal) → IsNoLarger (with_vol cut cfg vol) (with_vol i cfg vol)
  unfolding with_vol
  with_vol_mono none = finish_mono fixed fixed fixed_cut fixed_cut fixed_mono fixed_mono
  with_vol_mono (some v) = elim (Bool-cases (ltb_ℤ (pos 0) v)) [
    | inl e ↦ rw e (elim (Bool-cases (base_risk i cfg ==ℤ pos 0)) [
      | inl z ↦ rw z tt
      | inr z ↦ rw z (
          finish_mono fixed (affordable (vol_budget i cfg v) i) fixed_cut
            (affordable (vol_budget cut cfg v) i) fixed_mono
            (affordable_mono (vol_budget cut cfg v) (vol_budget i cfg v)
              (vol_mono v (ground arith) (ground (arith, s.base_nonneg)))))
    ])
    | inr e ↦ rw e (finish_mono fixed fixed fixed_cut fixed_cut fixed_mono fixed_mono)
  ]

-- The multiplier does not read the context.
multiplier-with_context :
    (i : SizingInput) (cfg : Config) (c : Decimal)
    → multiplier (with_context c i) cfg ≡ multiplier i cfg
unfolding multiplier
multiplier-with_context i cfg c = refl

-- Where the account, the percentages and the multiplier are not negative and a spread can lose
-- something, a context multiplier that is no larger, with all else equal, gives an outcome of the
-- same kind with a quantity that is no larger.
pub context_never_inflates :
    (i : SizingInput) (cfg : Config) (c : Decimal)
    → IsSolvent i cfg
    → c ≤ℤ i.context_multiplier
    → IsNoLarger (size_position (with_context c i) cfg) (size_position i cfg)
unfolding size_position
context_never_inflates i cfg c s less =
    rw (multiplier-with_context i cfg c) (elim (Bool-cases (leb_ℤ i.max_loss_per_spread (pos 0))) [
      | inl e ↦ rw e tt
      | inr e ↦ rw e (elim (Bool-cases (multiplier i cfg ==ℤ pos 0)) [
        | inl z ↦ rw z (omega arith)
        | inr z ↦ rw z (with_vol_mono i cfg s c less i.underlying_vol)
      ])
    ])
