-- ===== src/Execution/Router/Legs.antt =====
-- The legs that `_leg_requests` of glassbox/execution/router.py sends.
use glassbox_ai_quant.Prelude.{
  ◌==◌, if◌then◌else◌, Bool-cases, ℕ, ◌≡◌, refl, inl, inr, true, false, List, [], ◌∷◌, map, arith,
}
use glassbox_ai_quant.Prelude.Int.{ℤ, pos, ◌+ℤ◌, neg, int_laws}
use glassbox_ai_quant.Structures.{long, short, Leg, Structure}
use glassbox_ai_quant.Execution.Router.{LegRequest, leg_request, leg_requests}

abbrev pub contracts : LegRequest → ℤ
contracts r = if r.buys then pos r.ratio_qty else neg (pos r.ratio_qty)

-- What the requests for a structure buy of a symbol, less what they sell.
unfoldable pub bought : ℕ → List LegRequest → ℤ
bought symbol [] = pos 0
bought symbol (r ∷ rs) =
    let rest = bought symbol rs in if symbol == r.symbol then contracts r +ℤ rest else rest

inverts : (l : Leg) → contracts (leg_request true l) ≡ neg (contracts (leg_request false l))
unfolding neg
inverts l = elim l.side [ long ↦ ground arith | short ↦ ground arith ]

closing_legs_lem :
    (symbol : ℕ) (ls : List Leg)
    → bought symbol (map (leg_request true) ls) ≡ neg (bought symbol (map (leg_request false) ls))
unfolding bought
closing_legs_lem symbol [] = unfold neg in refl
closing_legs_lem symbol (l ∷ ls) = elim (Bool-cases (symbol == l.symbol)) [
  | inl e ↦ rw (e, inverts l, closing_legs_lem symbol ls) (omega int_laws)
  | inr e ↦ rw e (closing_legs_lem symbol ls)
]

-- The order that closes a structure buys of every symbol what the order that opened it sold, and sells
-- what it bought.
pub closing_legs_invert :
    (s : Structure) (symbol : ℕ)
    → bought symbol (leg_requests s true) ≡ neg (bought symbol (leg_requests s false))
unfolding leg_requests
closing_legs_invert s symbol = closing_legs_lem symbol s.legs
