-- ===== src/Execution/Lifecycle/Prices.antt =====
-- glassbox/execution/lifecycle.py: how long an entry may rest, and the limit that an escalation sets.
use glassbox_ai_quant.Prelude.{if◌then◌else◌, Option, none, some}
use glassbox_ai_quant.Prelude.Int.{pos, ◌+ℤ◌, ◌-ℤ◌, ◌*ℤ◌, abs, ltb_ℤ, leb_ℤ, ◌==ℤ◌, min_ℤ, max_ℤ}
use glassbox_ai_quant.Prelude.Decimal.{Decimal, whole, times, over}
use glassbox_ai_quant.Prelude.Cents.{round_cents}
use glassbox_ai_quant.Config.{ExecutionCfg, Config}
use glassbox_ai_quant.Store.{Features, unreadable, spread_field, Position}

-- `float(json.loads(...).get("spread_pct_of_mid") or 0.0)`; nothing where it raises
abbrev pub spread_pct : Features → Option Decimal
spread_pct unreadable = none
spread_pct (spread_field none) = some (pos 0)
spread_pct (spread_field (some p)) = some p

abbrev pub minutes : Decimal → Decimal
minutes m = pos 60 *ℤ m

abbrev pub base_budget : ExecutionCfg → Decimal
base_budget ex = minutes ex.entry_fill_timeout_minutes

abbrev pub cap_budget : ExecutionCfg → Decimal
cap_budget ex = minutes ex.entry_timeout_max_minutes

unfoldable pub scaled_budget : ExecutionCfg → Option Decimal → Decimal
scaled_budget ex none = base_budget ex
scaled_budget ex (some spread) =
    let reference = ex.entry_timeout_reference_spread_pct in
    if leb_ℤ spread reference
    then base_budget ex
    else min_ℤ (cap_budget ex) (times (base_budget ex) (over spread reference))

-- `_entry_budget_seconds`
unfoldable pub entry_budget_seconds : Config → Option Position → Decimal
entry_budget_seconds cfg none = base_budget cfg.execution
entry_budget_seconds cfg (some row) =
    if leb_ℤ cfg.execution.entry_timeout_reference_spread_pct (pos 0)
    then base_budget cfg.execution
    else scaled_budget cfg.execution (spread_pct row.features)

-- The larger of one tick and a fraction of the quoted spread.
unfoldable pub full_step : ExecutionCfg → Decimal → Decimal → Decimal
full_step ex origin spread =
    let quoted = over (times (abs origin) spread) (whole 100) in
    max_ℤ ex.entry_ladder_tick (round_cents (times quoted ex.entry_ladder_spread_fraction))

-- The most that an entry concedes from its first price.
unfoldable pub concession_cap : ExecutionCfg → Decimal → Decimal
concession_cap ex origin = over (times (abs origin) ex.entry_ladder_max_concession_pct) (whole 100)

unfoldable pub with_step : Decimal → Decimal → Option Decimal
with_step old step =
    let new_price = round_cents (old +ℤ step) in
    if new_price ==ℤ pos 0 then none else some new_price

-- The price of the next rung. The tolerance of 1e-9 is below a millionth, where sums are exact.
unfoldable pub next_rung : ExecutionCfg → Decimal → Decimal → Decimal → Option Decimal
next_rung ex origin old spread =
    let step = full_step ex origin spread in
    let left = round_cents (concession_cap ex origin -ℤ (old -ℤ origin)) in
    if ltb_ℤ (concession_cap ex origin) ((old -ℤ origin) +ℤ step)
    then (if ltb_ℤ left ex.entry_ladder_tick then none else with_step old left)
    else with_step old step

unfoldable pub concession : ExecutionCfg → Decimal
concession ex = whole 1 +ℤ over ex.close_escalation_pct (whole 100)

-- The price of an escalated close.
unfoldable pub worse_price : ExecutionCfg → Decimal → Decimal
worse_price ex old =
    round_cents (if ltb_ℤ (pos 0) old then times old (concession ex) else over old (concession ex))
