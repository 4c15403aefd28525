-- ===== src/Tests/Sizes.antt =====
-- Runs of glassbox/sizing.py.
use glassbox_ai_quant.Prelude.{◌≡◌, refl, true, false, none, arith}
use glassbox_ai_quant.Prelude.Int.{pos, ◌*ℤ◌, ◌≤ℤ◌, min_ℤ, max_ℤ}
use glassbox_ai_quant.Prelude.Decimal.{whole, percent_of}
use glassbox_ai_quant.Config.{default_config}
use glassbox_ai_quant.Sizing.{
  meta_multiplier, fixed_fractional_binding, SizingResult, sized, SizingInput, base_risk,
  multiplier, risk_dollars, finish, with_vol, size_position,
}
use glassbox_ai_quant.Sizing.Budget.{IsPrudent, risk_dollars_range, approved_size_capped}
use glassbox_ai_quant.Sizing.Haircuts.{with_context, IsSolvent, IsNoLarger, context_never_inflates}
use glassbox_ai_quant.Sizing.Gated.{Carries, sized_passes_gate}
use glassbox_ai_quant.Gate.Checks.{check_position_size}
use glassbox_ai_quant.Tests.Gates.{proposal}

-- A confident signal on an account of 100,000, for a spread that can lose 380 dollars.
abbrev signal : SizingInput
signal = record {
  equity = whole 100000;
  max_loss_per_spread = whole 380;
  meta_label_p = pos 900000;
  underlying_vol = none;
  target_vol = none;
  loss_streak = 0;
  context_multiplier = whole 1;
  abstaining = false;
}

-- Three spreads.
abbrev three : SizingResult
three = record {
  qty = pos 3;
  reason = fixed_fractional_binding;
  r_dollars = whole 1500;
  meta_mult = whole 1;
  fixed_fractional_qty = pos 3;
  vol_target_qty = pos 3;
}

size_position_runs : size_position signal default_config ≡ sized three
unfolding size_position with_vol finish risk_dollars multiplier meta_multiplier percent_of min_ℤ
    max_ℤ
size_position_runs = refl

default-IsPrudent : IsPrudent default_config
default-IsPrudent = record {
  ordered = record { floor_nonneg = omega arith; floor_le = omega arith; p_lt = omega arith };
  ceiling_le_one = omega arith;
  abstain_nonneg = omega arith;
  abstain_le_one = omega arith;
}

base_nonneg : pos 0 ≤ℤ base_risk signal default_config
unfolding percent_of
base_nonneg = omega arith

approved_size_capped_example :
    (three.qty *ℤ signal.max_loss_per_spread ≤ℤ base_risk signal default_config)
    × (three.qty *ℤ signal.max_loss_per_spread
        ≤ℤ percent_of default_config.risk.max_loss_per_position_pct signal.equity)
approved_size_capped_example =
    approved_size_capped signal default_config default-IsPrudent base_nonneg three
      size_position_runs refl

risk_dollars_range_example :
    (pos 0 ≤ℤ risk_dollars signal default_config)
    × (risk_dollars signal default_config ≤ℤ base_risk signal default_config)
risk_dollars_range_example = risk_dollars_range signal default_config default-IsPrudent base_nonneg

signal-IsSolvent : IsSolvent signal default_config
unfolding multiplier meta_multiplier
signal-IsSolvent = record {
  base_nonneg = base_nonneg;
  equity_nonneg = omega arith;
  pct_nonneg = omega arith;
  target_nonneg = omega arith;
  loss_pos = omega arith;
  multiplier_nonneg = omega arith;
}

context_never_inflates_example :
    IsNoLarger
      (size_position (with_context (pos 400000) signal) default_config)
      (size_position signal default_config)
context_never_inflates_example =
    context_never_inflates signal default_config (pos 400000) signal-IsSolvent (omega arith)

proposal-Carries : Carries proposal signal three
proposal-Carries = record { same_qty = refl; same_loss = refl; same_equity = refl }

sized_passes_gate_example : (check_position_size proposal default_config).passed ≡ true
sized_passes_gate_example =
    sized_passes_gate signal default_config three proposal size_position_runs refl proposal-Carries
