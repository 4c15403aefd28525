-- ===== src/Sizing.antt =====
-- glassbox/sizing.py: the tapers, the meta multiplier and the size of a position. A raised exception
-- is a result of its own; the texts of a reason are left out but for which budget bound.
pub mod Tapers
pub mod Caps
pub mod Budget
pub mod Haircuts
pub mod Gated
use glassbox_ai_quant.Prelude.{leb, if◌then◌else◌, ℕ, Bool, ◌||◌, Option, none, some}
use glassbox_ai_quant.Prelude.Int.{
  ℤ, pos, ◌+ℤ◌, ◌-ℤ◌, abs, ltb_ℤ, leb_ℤ, ◌==ℤ◌, min_ℤ, max_ℤ, floor_div,
}
use glassbox_ai_quant.Prelude.Decimal.{Decimal, whole, times, over, percent_of}
use glassbox_ai_quant.Config.{Config}

-- `_taper`
unfoldable pub taper : Decimal → Decimal → Decimal → Decimal
taper utilisation start floor =
    if leb_ℤ utilisation start || leb_ℤ (whole 1) start
    then whole 1
    else let span = over (min_ℤ utilisation (whole 1) -ℤ start) (whole 1 -ℤ start) in
      max_ℤ floor (whole 1 -ℤ times (whole 1 -ℤ floor) span)

unfoldable pub heat_taper : Decimal → Decimal → Config → Decimal
heat_taper current_heat equity cfg =
    let cap = percent_of cfg.risk.portfolio_heat_pct equity in
    if leb_ℤ cap (pos 0)
    then whole 1
    else taper (over current_heat cap) cfg.sizing.heat_taper_start cfg.sizing.heat_taper_floor

unfoldable pub drawdown_taper : Decimal → Config → Decimal
drawdown_taper daily_pnl_pct cfg =
    let limit = cfg.risk.daily_loss_halt_pct in
    if leb_ℤ limit (pos 0) || leb_ℤ (pos 0) daily_pnl_pct
    then whole 1
    else taper (over (abs daily_pnl_pct) limit) cfg.sizing.drawdown_taper_start
        cfg.sizing.drawdown_taper_floor

unfoldable pub meta_multiplier : Decimal → Config → Decimal
meta_multiplier p cfg =
    let floor_p = cfg.risk.min_meta_label_p in
    let ceiling_p = cfg.sizing.meta_multiplier_ceiling_p in
    let lo = cfg.sizing.meta_multiplier_floor in
    let hi = cfg.sizing.meta_multiplier_ceiling in
    if ltb_ℤ p floor_p
    then pos 0
    else if leb_ℤ ceiling_p p
    then hi
    else lo +ℤ times (hi -ℤ lo) (over (p -ℤ floor_p) (ceiling_p -ℤ floor_p))

pub data SizingReason : Type 0 where
  below_label vol_budget_small budget_small vol_target_binding fixed_fractional_binding :
      SizingReason

pub record SizingResult : Type 0 where
  pub qty : ℤ
  pub reason : SizingReason
  pub r_dollars : Decimal
  pub meta_mult : Decimal
  pub fixed_fractional_qty : ℤ
  pub vol_target_qty : ℤ

-- `SizingResult.approved`
abbrev pub is_approved : SizingResult → Bool
is_approved r = ltb_ℤ (pos 0) r.qty

pub data SizingOutcome : Type 0 where
  sized : SizingResult → SizingOutcome
  value_error zero_division : SizingOutcome

-- The arguments of `size_position`, but for the configuration.
pub record SizingInput : Type 0 where
  pub equity : Decimal
  pub max_loss_per_spread : Decimal
  pub meta_label_p : Decimal
  pub underlying_vol : Option Decimal
  pub target_vol : Option Decimal
  pub loss_streak : ℕ
  pub context_multiplier : Decimal
  pub abstaining : Bool

-- `equity * (cfg.risk.r_per_trade_pct / 100)`
abbrev pub base_risk : SizingInput → Config → Decimal
base_risk i cfg = percent_of cfg.risk.r_per_trade_pct i.equity

-- The multiplier, by whether the meta-labeler abstains.
unfoldable pub multiplier : SizingInput → Config → Decimal
multiplier i cfg =
    if i.abstaining
    then if ltb_ℤ i.meta_label_p cfg.risk.min_meta_label_p
      then pos 0
      else cfg.sizing.abstain_multiplier
    else meta_multiplier i.meta_label_p cfg

-- `max(0.0, min(context_multiplier, 1.0))`
abbrev pub clamped : Decimal → Decimal
clamped c = max_ℤ (pos 0) (min_ℤ c (whole 1))

-- `r_dollars`, halved on a losing streak.
unfoldable pub risk_dollars : SizingInput → Config → Decimal
risk_dollars i cfg =
    let r = times (times (base_risk i cfg) (multiplier i cfg)) (clamped i.context_multiplier) in
    if leb cfg.risk.loss_streak_half_size i.loss_streak then over r (whole 2) else r

abbrev pub target_or_default : SizingInput → Config → Decimal
target_or_default i cfg = elim i.target_vol [ none ↦ cfg.sizing.target_daily_vol | some t ↦ t ]

-- The volatility budget for a realised volatility.
unfoldable pub vol_budget : SizingInput → Config → Decimal → Decimal
vol_budget i cfg vol =
    let haircut = over (risk_dollars i cfg) (base_risk i cfg) in
    times
      (times (over (times i.equity (target_or_default i cfg)) vol)
        (over cfg.risk.r_per_trade_pct (whole 100)))
      haircut

-- `int(budget // max_loss_per_spread)`
abbrev pub affordable : Decimal → SizingInput → ℤ
affordable budget i = floor_div budget i.max_loss_per_spread

-- The end of `size_position`, from the two quantities on.
unfoldable pub finish : SizingInput → Config → ℤ → ℤ → SizingResult
finish i cfg fixed_qty vol_qty =
    let cap = percent_of cfg.risk.max_loss_per_position_pct i.equity in
    let q = min_ℤ (min_ℤ fixed_qty vol_qty) (affordable cap i) in
    let small = ltb_ℤ q (pos 1) in
    record {
      qty = if small then pos 0 else q;
      reason =
          if small
          then if ltb_ℤ vol_qty fixed_qty then vol_budget_small else budget_small
          else if ltb_ℤ vol_qty fixed_qty
          then vol_target_binding
          else fixed_fractional_binding;
      r_dollars = risk_dollars i cfg;
      meta_mult = multiplier i cfg;
      fixed_fractional_qty = fixed_qty;
      vol_target_qty = vol_qty;
    }

-- `if underlying_vol and underlying_vol > 0`
unfoldable pub with_vol : SizingInput → Config → Option Decimal → SizingOutcome
with_vol i cfg none = let q = affordable (risk_dollars i cfg) i in sized (finish i cfg q q)
with_vol i cfg (some vol) =
    let q = affordable (risk_dollars i cfg) i in
    if ltb_ℤ (pos 0) vol
    then if base_risk i cfg ==ℤ pos 0
      then zero_division
      else sized (finish i cfg q (affordable (vol_budget i cfg vol) i))
    else sized (finish i cfg q q)

abbrev no_trade : SizingResult
no_trade = record {
  qty = pos 0;
  reason = below_label;
  r_dollars = pos 0;
  meta_mult = pos 0;
  fixed_fractional_qty = pos 0;
  vol_target_qty = pos 0;
}

unfoldable pub size_position : SizingInput → Config → SizingOutcome
size_position i cfg =
    if leb_ℤ i.max_loss_per_spread (pos 0)
    then value_error
    else if multiplier i cfg ==ℤ pos 0
    then sized no_trade
    else with_vol i cfg i.underlying_vol
