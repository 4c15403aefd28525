-- ===== src/Sizing/Gated.antt =====
-- A size of glassbox/sizing.py before the size check of glassbox/gate.py.
use glassbox_ai_quant.Prelude.{◌≡◌, true, arith}
use glassbox_ai_quant.Config.{Config}
use glassbox_ai_quant.Sizing.{SizingResult, is_approved, sized, SizingInput, size_position}
use glassbox_ai_quant.Sizing.Caps.{size_position-IsCapped}
use glassbox_ai_quant.Gate.Context.{GateContext, total_max_loss}
use glassbox_ai_quant.Gate.Checks.{check_position_size}
use glassbox_ai_quant.Gate.Admission.{position_size-passed}

-- The proposal carries the size, with the account and the maximum loss that it was computed from.
pub record Carries (ctx : GateContext) (i : SizingInput) (r : SizingResult) : Type 0 where
  pub same_qty : ctx.qty ≡ r.qty
  pub same_loss : ctx.max_loss_per_spread ≡ i.max_loss_per_spread
  pub same_equity : ctx.equity ≡ i.equity

-- A size that `size_position` approves passes the gate's size check, if the proposal carries it with the
-- account and the maximum loss that it was computed from.
pub sized_passes_gate :
    (i : SizingInput) (cfg : Config) (r : SizingResult) (ctx : GateContext)
    → size_position i cfg ≡ sized r
    → is_approved r ≡ true
    → Carries ctx i r
    → (check_position_size ctx cfg).passed ≡ true
unfolding total_max_loss
sized_passes_gate i cfg r ctx h a c =
    let capped = size_position-IsCapped i cfg r h a in
    (position_size-passed ctx cfg).1
      (rw c.same_qty (ground (arith, a)), rw (c.same_qty, c.same_loss, c.same_equity) capped.0)
