-- ===== src/Store/Rows.antt =====
-- The columns of the tables in glassbox/store.py that take one of a few words, and the legs of a
-- position. glassbox/execution/lifecycle.py writes two words that the comments of the schema do not
-- list: "failed" for a position and "expired" for an order.
use glassbox_ai_quant.Prelude.{ℕ, Bool, true, false}

pub data PositionStatus : Type 0 where
  opening opened closing closed failed : PositionStatus  -- `opened` is "open"

pub data Intent : Type 0 where
  to_open to_close : Intent

pub data OrderStatus : Type 0 where
  pending submitted filled canceled rejected expired : OrderStatus

-- An entry of `legs_json`.
pub record LegRow : Type 0 where
  pub symbol : ℕ
  pub is_long : Bool
  pub ratio_qty : ℕ

-- `status IN ('opening','open','closing')`
abbrev pub is_live : PositionStatus → Bool
is_live closed = false
is_live failed = false
is_live _ = true

-- `status == "pending"`
abbrev pub is_pending : OrderStatus → Bool
is_pending pending = true
is_pending _ = false

-- `status='closed'`
abbrev pub is_closed : PositionStatus → Bool
is_closed closed = true
is_closed _ = false

-- `status IN ('pending','submitted')`
abbrev pub is_unresolved : OrderStatus → Bool
is_unresolved pending = true
is_unresolved submitted = true
is_unresolved _ = false
