-- ===== src/Execution/Router/Records.antt =====
-- What `submit_structure`, `poll` and `cancel` of glassbox/execution/router.py leave in the orders table.
use glassbox_ai_quant.Prelude.{if◌then◌else◌, is_some, ℕ, ◌≡◌, refl, Option, some, arith}
use glassbox_ai_quant.Prelude.Table.{find_row-update_rows, find_row-append}
use glassbox_ai_quant.Breaker.{CircuitBreaker, CallResult, rejected, raised, returned}
use glassbox_ai_quant.Store.{Order, Tables, record_order, update_order, get_order}
use glassbox_ai_quant.Execution.Router.{Broker, Session, settle, guarded}

module _ {W : Type 0} {A : Type 0} where
  settle_keeps :
      (s : Session W) (w : W) (r : CallResult A × CircuitBreaker)
      → ((settle s w r).0.tables ≡ s.tables) × ((settle s w r).0.audit ≡ s.audit)
  settle_keeps s w (rejected, b) = (refl, refl)
  settle_keeps s w (raised, b) = (refl, refl)
  settle_keeps s w (returned a, b) = (refl, refl)

module _ {W : Type 0} (broker : Broker W) where
  -- A call of the broker changes neither table nor audit log.
  pub guarded_keeps :
      {A : Type 0} (f : W → W × Option A) (s : Session W)
      → ((guarded broker f s).0.tables ≡ s.tables) × ((guarded broker f s).0.audit ≡ s.audit)
  unfolding guarded
  guarded_keeps f s = settle_keeps s (f s.world).0 _

-- An order's row as an update leaves it.
pub get_order-update :
    (c : ℕ) (f : Order → Order) (t : Tables)
    → ((o : Order) → (f o).client_order_id ≡ o.client_order_id)
    → (o : Order) → get_order c t ≡ some o
    → get_order c (update_order c f t) ≡ some (f o)
unfolding get_order update_order
get_order-update c f t keeps o h =
    rw (find_row-update_rows (λ (r : Order). r.client_order_id) c c f keeps t.orders, h)
      (ground arith)

pub get_order-record :
    (o : Order) (t : Tables)
    → get_order o.client_order_id (record_order o t)
      ≡ (if is_some (get_order o.client_order_id t) then get_order o.client_order_id t else some o)
unfolding get_order record_order
get_order-record o t =
    ground (arith, find_row-append (λ (r : Order). r.client_order_id) o.client_order_id o t.orders)
