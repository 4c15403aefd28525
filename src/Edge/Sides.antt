-- ===== src/Edge/Sides.antt =====
-- The side of the structures that `evaluate_edge` of glassbox/signal/edge.py names.
use glassbox_ai_quant.Prelude.{length, All, ◌≡◌, refl, ◌↔◌, ◌⊎◌, inl, inr, true, false, some, arith}
use glassbox_ai_quant.Config.{Config}
use glassbox_ai_quant.Structures.{StructureKind, is_credit_kind}
use glassbox_ai_quant.Manage.Views.{Direction, up, down, neither}
use glassbox_ai_quant.Edge.{
  EdgeVerdict, long_convexity, short_premium, no_edge, EdgeResult, eligible_structures, EdgeInput,
  judged, evaluate_edge,
}
use glassbox_ai_quant.Edge.Verdicts.{evaluated_lem}

-- The side of each structure that a verdict may trade.
pub OnSide : EdgeVerdict → StructureKind → Type 0
OnSide v k =
    ((is_credit_kind k ≡ true) × (v ≡ short_premium))
    ⊎ ((is_credit_kind k ≡ false) × (v ≡ long_convexity))

eligible-OnSide : (v : EdgeVerdict) (d : Direction) → All (OnSide v) (eligible_structures v d)
unfolding OnSide
eligible-OnSide long_convexity up = (inr (refl, refl), tt)
eligible-OnSide long_convexity down = (inr (refl, refl), tt)
eligible-OnSide long_convexity neither = (inr (refl, refl), tt)
eligible-OnSide short_premium up = (inl (refl, refl), tt)
eligible-OnSide short_premium down = (inl (refl, refl), tt)
eligible-OnSide short_premium neither = (inl (refl, refl), tt)
eligible-OnSide no_edge d = tt

eligible_count :
    (v : EdgeVerdict) (d : Direction) → (length (eligible_structures v d) ≡ 0) ↔ (v ≡ no_edge)
eligible_count v d = (λ h. ground arith, λ h. ground arith)

-- Every structure of a result of `evaluate_edge` is a credit and the result sells premium, or is
-- a debit and it buys; and there is none exactly when there is no edge.
pub structures-OnSide :
    (i : EdgeInput) (cfg : Config) (r : EdgeResult)
    → evaluate_edge i cfg ≡ some r
    → All (OnSide r.verdict) r.eligible_structures
      × ((length r.eligible_structures ≡ 0) ↔ (r.verdict ≡ no_edge))
structures-OnSide i cfg r h = rw (evaluated_lem i cfg r h) (
  eligible-OnSide (judged i cfg r.implied_move_pct).0 i.direction,
  eligible_count (judged i cfg r.implied_move_pct).0 i.direction,
)
