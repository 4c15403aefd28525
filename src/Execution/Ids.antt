-- ===== src/Execution/Ids.antt =====
-- glassbox/execution/ids.py. The texts that are hashed are kept as what they are put together from;
-- `digest` is the SHA-256 of such a text, of which the code keeps 32 digits behind "gbx-o-" or
-- "gbx-c-".
use glassbox_ai_quant.Prelude.{ℕ}
use glassbox_ai_quant.Structures.{Structure}
use glassbox_ai_quant.Manage.Views.{Barrier}

-- `reason` of a closing order: a barrier, or "escalated".
pub data CloseReason : Type 0 where
  at_barrier : Barrier → CloseReason
  escalated : CloseReason

pub data IdText : Type 0 where
  open_text : ℕ → Structure → ℕ → IdText
  close_text : ℕ → CloseReason → ℕ → IdText

module _ (digest : IdText → ℕ) where
  unfoldable pub client_order_id : ℕ → Structure → ℕ → ℕ
  client_order_id signal_id structure attempt = digest (open_text signal_id structure attempt)

  unfoldable pub close_order_id : ℕ → CloseReason → ℕ → ℕ
  close_order_id position_id reason attempt = digest (close_text position_id reason attempt)
