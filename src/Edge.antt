-- ===== src/Edge.antt =====
-- glassbox/signal/edge.py: the expected against the implied move. The texts of a result are left out;
-- a raised ValueError is `none`.
use glassbox_ai_quant.Prelude.{
  if◌then◌else◌, Bool, true, false, not, ◌&&◌, ◌||◌, Option, none, some, List, [], ◌∷◌,
}
use glassbox_ai_quant.Prelude.Int.{pos, ◌-ℤ◌, ◌*ℤ◌, ltb_ℤ, leb_ℤ, ◌==ℤ◌, max_ℤ}
use glassbox_ai_quant.Prelude.Decimal.{Decimal, whole, over}
use glassbox_ai_quant.Config.{Config}
use glassbox_ai_quant.Structures.{
  StructureKind, bull_put_spread, bear_call_spread, iron_condor, call_debit_spread,
  put_debit_spread, long_strangle,
}
use glassbox_ai_quant.Manage.Views.{Direction, up, down, neither}
pub mod Verdicts
pub mod Sides

pub data EdgeVerdict : Type 0 where
  long_convexity short_premium no_edge : EdgeVerdict

pub record EdgeResult : Type 0 where
  pub verdict : EdgeVerdict
  pub expected_move_pct : Decimal
  pub implied_move_pct : Decimal
  pub ratio : Decimal
  pub eligible_structures : List StructureKind
  pub raw_expected_move_pct : Decimal
  pub realized_move_pct : Decimal
  pub vrp_ratio : Option Decimal

-- `EdgeResult.tradable`
abbrev pub tradable : EdgeResult → Bool
tradable r = elim r.verdict [ no_edge ↦ false | _ ↦ true ]

unfoldable pub event_implied_move_pct : Decimal → Decimal → Option Decimal
event_implied_move_pct straddle_mid spot =
    if leb_ℤ spot (pos 0) || leb_ℤ straddle_mid (pos 0)
    then none
    else some (over (pos 100 *ℤ straddle_mid) spot)

-- The direction is a text; `neither` is any other than "up" and "down".
abbrev pub eligible_structures : EdgeVerdict → Direction → List StructureKind
eligible_structures long_convexity up = call_debit_spread ∷ []
eligible_structures long_convexity down = put_debit_spread ∷ []
eligible_structures long_convexity neither = long_strangle ∷ []
eligible_structures short_premium up = bull_put_spread ∷ []
eligible_structures short_premium down = bear_call_spread ∷ []
eligible_structures short_premium neither = iron_condor ∷ []
eligible_structures no_edge d = []

unfoldable pub remaining_move : Decimal → Option Decimal → Decimal
remaining_move expected none = expected
remaining_move expected (some realized) = max_ℤ (pos 0) (expected -ℤ realized)

abbrev debit_ceiling : Config → Decimal → Decimal
debit_ceiling cfg shift = cfg.signal.vrp_max_for_debit -ℤ max_ℤ shift (pos 0)

abbrev credit_floor : Config → Decimal → Decimal
credit_floor cfg shift = cfg.signal.vrp_min_for_credit -ℤ shift

unfoldable pub vrp_permits : EdgeVerdict → Option Decimal → Config → Decimal → Bool
vrp_permits verdict none cfg shift = true
vrp_permits long_convexity (some vrp) cfg shift = not (ltb_ℤ (debit_ceiling cfg shift) vrp)
vrp_permits short_premium (some vrp) cfg shift = not (ltb_ℤ vrp (credit_floor cfg shift))
vrp_permits no_edge (some vrp) cfg shift = true

-- The arguments of `evaluate_edge` that it reads, besides the configuration.
pub record EdgeInput : Type 0 where
  pub expected_move_pct : Decimal
  pub direction : Direction
  pub confidence : Decimal
  pub straddle_mid : Decimal
  pub spot : Decimal
  pub realized_move_pct : Option Decimal
  pub forecast_move_pct : Option Decimal
  pub vrp_shift : Decimal
  pub relax_band : Bool

-- `realized_move_pct if cfg.signal.consume_realized_move else None`
abbrev pub consumed : EdgeInput → Config → Option Decimal
consumed i cfg = if cfg.signal.consume_realized_move then i.realized_move_pct else none

-- `consumed or 0.0`
abbrev pub spent : EdgeInput → Config → Decimal
spent i cfg = elim (consumed i cfg) [ none ↦ pos 0 | some c ↦ c ]

-- `bool(consumed)`: neither None nor zero.
abbrev pub has_spent : EdgeInput → Config → Bool
has_spent i cfg = not (spent i cfg ==ℤ pos 0)

-- `(implied / forecast_move_pct) if forecast_move_pct else None`
unfoldable pub vrp_of : Decimal → Option Decimal → Option Decimal
vrp_of implied none = none
vrp_of implied (some f) = if f ==ℤ pos 0 then none else some (over implied f)

abbrev pub debit_bar : EdgeInput → Config → Decimal
debit_bar i cfg = if i.relax_band then whole 1 else cfg.signal.edge_ratio_debit

abbrev pub credit_bar : EdgeInput → Config → Decimal
credit_bar i cfg = if i.relax_band then whole 1 else cfg.signal.edge_ratio_credit

-- The verdict by the two bars.
unfoldable pub by_bars : EdgeInput → Config → Decimal → EdgeVerdict
by_bars i cfg ratio =
    if leb_ℤ (debit_bar i cfg) ratio && ltb_ℤ (whole 1) ratio
    then long_convexity
    else if leb_ℤ ratio (credit_bar i cfg) && ltb_ℤ ratio (whole 1)
    then short_premium
    else no_edge

-- The verdict and the ratio that the result records, for an implied move.
unfoldable pub judged : EdgeInput → Config → Decimal → EdgeVerdict × Decimal
judged i cfg implied =
    let expected = remaining_move i.expected_move_pct (consumed i cfg) in
    if ltb_ℤ i.confidence cfg.signal.min_confidence
    then (no_edge, pos 0)
    else if has_spent i cfg && leb_ℤ expected (pos 0)
    then (no_edge, pos 0)
    else if leb_ℤ implied (pos 0)
    then (no_edge, pos 0)
    else let ratio = over expected implied in
      if leb_ℤ cfg.signal.max_plausible_ratio ratio
      then (no_edge, ratio)
      else if vrp_permits (by_bars i cfg ratio) (vrp_of implied i.forecast_move_pct) cfg i.vrp_shift
      then (by_bars i cfg ratio, ratio)
      else (no_edge, ratio)

abbrev pub result : EdgeInput → Config → Decimal → EdgeResult
result i cfg implied =
    let j = judged i cfg implied in
    record {
      verdict = j.0;
      expected_move_pct = remaining_move i.expected_move_pct (consumed i cfg);
      implied_move_pct = implied;
      ratio = j.1;
      eligible_structures = eligible_structures j.0 i.direction;
      raw_expected_move_pct = i.expected_move_pct;
      realized_move_pct = spent i cfg;
      vrp_ratio = vrp_of implied i.forecast_move_pct;
    }

-- `evaluate_edge`
unfoldable pub evaluate_edge : EdgeInput → Config → Option EdgeResult
evaluate_edge i cfg = elim (event_implied_move_pct i.straddle_mid i.spot) [
  | none ↦ none
  | some implied ↦ some (result i cfg implied)
]
