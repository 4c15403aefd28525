-- ===== src/Edge/Verdicts.antt =====
-- When `evaluate_edge` of glassbox/signal/edge.py buys or sells optionality, and with what.
use glassbox_ai_quant.Prelude.{
  if◌then◌else◌, and-false, ◌≡◌, refl, sym, ap, ◌∙◌, ◌≢◌, ◌↔◌, Bool, true, false, Option, none,
  some, arith,
}
use glassbox_ai_quant.Prelude.Int.{pos, ◌-ℤ◌, ◌≤ℤ◌, ◌<ℤ◌, max_ℤ, ltb_ℤ-false, leb_ℤ-false}
use glassbox_ai_quant.Prelude.Decimal.{Decimal, whole, over}
use glassbox_ai_quant.Config.{Config}
use glassbox_ai_quant.Edge.{
  EdgeVerdict, long_convexity, short_premium, no_edge, EdgeResult, event_implied_move_pct,
  remaining_move, vrp_permits, EdgeInput, consumed, has_spent, vrp_of, debit_bar, credit_bar,
  by_bars, judged, result, evaluate_edge,
}

abbrev pub expected : EdgeInput → Config → Decimal
expected i cfg = remaining_move i.expected_move_pct (consumed i cfg)

abbrev pub ratio_of : EdgeInput → Config → Decimal → Decimal
ratio_of i cfg implied = over (expected i cfg) implied

-- What every tradable verdict needs.
pub record IsUsable (i : EdgeInput) (cfg : Config) (implied : Decimal) : Type 0 where
  pub confident : cfg.signal.min_confidence ≤ℤ i.confidence
  pub left_over : has_spent i cfg ≡ true → pos 0 <ℤ expected i cfg
  pub priced : pos 0 <ℤ implied
  pub plausible : ratio_of i cfg implied <ℤ cfg.signal.max_plausible_ratio

-- The volatility premium is unknown, or on the verdict's side of its shifted bound.
pub IsPermitted : EdgeVerdict → Option Decimal → Config → Decimal → Type 0
IsPermitted long_convexity (some vrp) cfg shift =
    vrp ≤ℤ cfg.signal.vrp_max_for_debit -ℤ max_ℤ shift (pos 0)
IsPermitted short_premium (some vrp) cfg shift = cfg.signal.vrp_min_for_credit -ℤ shift ≤ℤ vrp
IsPermitted _ _ cfg shift = Unit

permits_exact :
    (v : EdgeVerdict) (o : Option Decimal) (cfg : Config) (shift : Decimal)
    → (vrp_permits v o cfg shift ≡ true) ↔ IsPermitted v o cfg shift
unfolding vrp_permits IsPermitted
permits_exact long_convexity none cfg shift = (λ h. tt, λ h. refl)
permits_exact short_premium none cfg shift = (λ h. tt, λ h. refl)
permits_exact no_edge none cfg shift = (λ h. tt, λ h. refl)
permits_exact long_convexity (some vrp) cfg shift = (λ h. ground arith, λ h. ground arith)
permits_exact short_premium (some vrp) cfg shift = (λ h. ground arith, λ h. ground arith)
permits_exact no_edge (some vrp) cfg shift = (λ h. tt, λ h. refl)

-- The chain of returns, with its tests as Booleans.
abbrev chain : Bool → Bool → Bool → Bool → Bool → EdgeVerdict → Decimal → EdgeVerdict × Decimal
chain doubtful used_up unpriced wild permitted w r =
    if doubtful
    then (no_edge, pos 0)
    else if used_up
    then (no_edge, pos 0)
    else if unpriced
    then (no_edge, pos 0)
    else if wild
    then (no_edge, r)
    else if permitted
    then (w, r)
    else (no_edge, r)

chain_exact :
    (a b c d e : Bool) (w v : EdgeVerdict) (r : Decimal)
    → v ≢ no_edge
    → ((chain a b c d e w r).0 ≡ v)
      ↔ ((a ≡ false) × ((b ≡ false) × ((c ≡ false) × ((d ≡ false) × ((e ≡ true) × (w ≡ v))))))
chain_exact true b c d e w v r n = (λ h. absurd (n (sym h)), λ h. absurd (ground arith))
chain_exact false true c d e w v r n = (λ h. absurd (n (sym h)), λ h. absurd (ground arith))
chain_exact false false true d e w v r n = (λ h. absurd (n (sym h)), λ h. absurd (ground arith))
chain_exact false false false true e w v r n = (λ h. absurd (n (sym h)), λ h. absurd (ground arith))
chain_exact false false false false true w v r n =
    (λ h. (refl, (refl, (refl, (refl, (refl, h))))), λ h. h.1.1.1.1.1)
chain_exact false false false false false w v r n =
    (λ h. absurd (n (sym h)), λ h. absurd (ground arith))

module _ (i : EdgeInput) (cfg : Config) (implied : Decimal) where
  judged_exact :
      (v : EdgeVerdict)
      → v ≢ no_edge
      → ((judged i cfg implied).0 ≡ v) ↔ (
          IsUsable i cfg implied
          × ((by_bars i cfg (ratio_of i cfg implied) ≡ v)
              × (IsPermitted v (vrp_of implied i.forecast_move_pct) cfg i.vrp_shift)))
  unfolding judged
  judged_exact v n =
      let ratio = ratio_of i cfg implied in
      let vrp = vrp_of implied i.forecast_move_pct in
      let chain =
        chain_exact _ _ _ _ (vrp_permits (by_bars i cfg ratio) vrp cfg i.vrp_shift)
          (by_bars i cfg ratio) v ratio n in
      (
        λ h.
            let c = chain.0 h in
            (
              record {
                confident = (ltb_ℤ-false i.confidence cfg.signal.min_confidence).0 c.0;
                left_over =
                    λ e. (leb_ℤ-false (expected i cfg) (pos 0)).0 ((and-false _ _).0 c.1.0 e);
                priced = (leb_ℤ-false implied (pos 0)).0 c.1.1.0;
                plausible = (leb_ℤ-false cfg.signal.max_plausible_ratio ratio).0 c.1.1.1.0;
              },
              (
                c.1.1.1.1.1,
                (permits_exact v vrp cfg i.vrp_shift).0
                    (ap (λ w. vrp_permits w vrp cfg i.vrp_shift) (sym c.1.1.1.1.1) ∙ c.1.1.1.1.0),
              ),
            ),
        λ h. chain.1 (
          (ltb_ℤ-false i.confidence cfg.signal.min_confidence).1 h.0.confident,
          (
            (and-false _ _).1 (λ e. (leb_ℤ-false (expected i cfg) (pos 0)).1 (h.0.left_over e)),
            (
              (leb_ℤ-false implied (pos 0)).1 h.0.priced,
              (
                (leb_ℤ-false cfg.signal.max_plausible_ratio ratio).1 h.0.plausible,
                (
                  ap (λ w. vrp_permits w vrp cfg i.vrp_shift) h.1.0
                      ∙ (permits_exact v vrp cfg i.vrp_shift).1 h.1.1,
                  h.1.0,
                ),
              ),
            ),
          ),
        ),
      )

  by_bars-long :
      (r : Decimal) → (by_bars i cfg r ≡ long_convexity) ↔ ((debit_bar i cfg ≤ℤ r) × (whole 1 <ℤ r))
  unfolding by_bars
  by_bars-long r = (λ h. (ground arith, ground arith), λ h. ground (arith, h.0, h.1))

  by_bars-short :
      (r : Decimal) → (by_bars i cfg r ≡ short_premium) ↔ ((r ≤ℤ credit_bar i cfg) × (r <ℤ whole 1))
  unfolding by_bars
  by_bars-short r = (λ h. (ground arith, ground arith), λ h. ground (arith, h.0, h.1))

-- What a debit structure needs.
pub record MayBuy (i : EdgeInput) (cfg : Config) (implied : Decimal) : Type 0 where
  pub usable : IsUsable i cfg implied
  pub at_bar : debit_bar i cfg ≤ℤ ratio_of i cfg implied
  pub above_one : whole 1 <ℤ ratio_of i cfg implied
  pub permitted : IsPermitted long_convexity (vrp_of implied i.forecast_move_pct) cfg i.vrp_shift

-- What a credit structure needs.
pub record MaySell (i : EdgeInput) (cfg : Config) (implied : Decimal) : Type 0 where
  pub usable : IsUsable i cfg implied
  pub at_bar : ratio_of i cfg implied ≤ℤ credit_bar i cfg
  pub below_one : ratio_of i cfg implied <ℤ whole 1
  pub permitted : IsPermitted short_premium (vrp_of implied i.forecast_move_pct) cfg i.vrp_shift

long-ne_none : long_convexity ≢ no_edge
long-ne_none = cc

short-ne_none : short_premium ≢ no_edge
short-ne_none = cc

pub evaluated_lem :
    (i : EdgeInput) (cfg : Config) (r : EdgeResult)
    → evaluate_edge i cfg ≡ some r
    → r ≡ result i cfg r.implied_move_pct
unfolding evaluate_edge
evaluated_lem i cfg r h = go (event_implied_move_pct i.straddle_mid i.spot) h
  where
    go :
        (o : Option Decimal)
        → (elim o [ none ↦ none | some implied ↦ some (result i cfg implied) ]) ≡ some r
        → r ≡ result i cfg r.implied_move_pct
    go none e = absurd (ground arith)
    go (some implied) e =
        let same = ap (λ (o : Option EdgeResult). elim o [ none ↦ r | some x ↦ x ]) e in
        sym same ∙ ap (λ (x : EdgeResult). result i cfg x.implied_move_pct) same

module _ (i : EdgeInput) (cfg : Config) (r : EdgeResult) where
  -- A result of `evaluate_edge` buys optionality exactly when the analyst is confident enough, something
  -- is left of a move partly made, the implied move is positive, the ratio is plausible, at least the
  -- debit bar and above one, and the volatility premium does not exceed its ceiling where it is known.
  pub buys_exact :
      evaluate_edge i cfg ≡ some r → (r.verdict ≡ long_convexity) ↔ MayBuy i cfg r.implied_move_pct
  buys_exact h =
      let implied = r.implied_move_pct in
      let same = ap (λ x. x.verdict) (evaluated_lem i cfg r h) in
      let judged = judged_exact i cfg implied long_convexity long-ne_none in
      let bars = by_bars-long i cfg implied (ratio_of i cfg implied) in
      (
        λ e.
            let j = judged.0 (sym same ∙ e) in
            record {
              usable = j.0;
              at_bar = (bars.0 j.1.0).0;
              above_one = (bars.0 j.1.0).1;
              permitted = j.1.1;
            },
        λ m. same ∙ judged.1 (m.usable, (bars.1 (m.at_bar, m.above_one), m.permitted)),
      )

  -- A result of `evaluate_edge` sells premium exactly when the analyst is confident enough, something is
  -- left of a move partly made, the implied move is positive, the ratio is plausible, at most the credit
  -- bar and below one, and the volatility premium reaches its floor where it is known.
  pub sells_exact :
      evaluate_edge i cfg ≡ some r → (r.verdict ≡ short_premium) ↔ MaySell i cfg r.implied_move_pct
  sells_exact h =
      let implied = r.implied_move_pct in
      let same = ap (λ x. x.verdict) (evaluated_lem i cfg r h) in
      let judged = judged_exact i cfg implied short_premium short-ne_none in
      let bars = by_bars-short i cfg implied (ratio_of i cfg implied) in
      (
        λ e.
            let j = judged.0 (sym same ∙ e) in
            record {
              usable = j.0;
              at_bar = (bars.0 j.1.0).0;
              below_one = (bars.0 j.1.0).1;
              permitted = j.1.1;
            },
        λ m. same ∙ judged.1 (m.usable, (bars.1 (m.at_bar, m.below_one), m.permitted)),
      )
