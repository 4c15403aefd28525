-- ===== src/Selection/Build.antt =====
-- glassbox/chain.py: the structures that are built from a chain, and what they cost to trade.
use glassbox_ai_quant.Selection.Quotes.{
  Chosen, undefined_risk, chosen, ◌>>=◌, ◌>>◌, refuse_if, ContractQuote, mid, spread_pct_of_mid,
  side_of, wing_width, liquid, pick,
}
use glassbox_ai_quant.Prelude.{
  ltb, leb, ◌==◌, if◌then◌else◌, keep_if, ℕ, min, ◌||◌, Option, none, some, List, [], ◌∷◌,
}
use glassbox_ai_quant.Prelude.Int.{pos, ◌+ℤ◌, ◌-ℤ◌, ◌*ℤ◌, neg, ltb_ℤ, leb_ℤ, max_ℤ}
use glassbox_ai_quant.Prelude.Decimal.{Decimal, whole, times, over}
use glassbox_ai_quant.Prelude.Cents.{round_cents}
use glassbox_ai_quant.Config.{Config}
use glassbox_ai_quant.Structures.{
  call, put, LegSide, long, short, StructureKind, bull_put_spread, bear_call_spread, iron_condor,
  call_debit_spread, put_debit_spread, long_strangle, Leg, Structure, Result, err, ok,
  assert_defined_risk,
}

-- `_leg`
abbrev pub leg_of : ContractQuote → LegSide → Leg
leg_of c s = record {
  symbol = c.symbol;
  right = c.right;
  strike = c.strike;
  expiry = c.expiry;
  side = s;
  ratio_qty = 1;
}

abbrev pub below : List ContractQuote → ℕ → List ContractQuote
below side strike = keep_if (λ (c : ContractQuote). ltb c.strike strike) side

abbrev pub above : List ContractQuote → ℕ → List ContractQuote
above side strike = keep_if (λ (c : ContractQuote). ltb strike c.strike) side

abbrev pub below_price : List ContractQuote → Decimal → List ContractQuote
below_price side price = keep_if (λ (c : ContractQuote). ltb_ℤ (pos c.strike) price) side

abbrev pub above_price : List ContractQuote → Decimal → List ContractQuote
above_price side price = keep_if (λ (c : ContractQuote). ltb_ℤ price (pos c.strike)) side

abbrev pub at_or_below : List ContractQuote → Decimal → List ContractQuote
at_or_below side price = keep_if (λ (c : ContractQuote). leb_ℤ (pos c.strike) price) side

abbrev pub at_or_above : List ContractQuote → Decimal → List ContractQuote
at_or_above side price = keep_if (λ (c : ContractQuote). leb_ℤ price (pos c.strike)) side

abbrev pub asserted : Structure → Decimal → Result (Unit {0}) → Chosen (Structure × Decimal)
asserted s net (err e) = undefined_risk e
asserted s net (ok _) = chosen (s, round_cents net)

-- The sides of a chain, those of `_liquid` and the whole ones, and the geometry of a view.
pub record View : Type 0 where
  pub kind : StructureKind
  pub underlying : ℕ
  pub calls : List ContractQuote
  pub puts : List ContractQuote
  pub all_calls : List ContractQuote
  pub all_puts : List ContractQuote
  pub spot : Decimal
  pub move : Decimal
  pub wing_pct : Decimal
  pub reach : Decimal

abbrev pub structure_of : View → List Leg → Structure
structure_of v legs = record { kind = v.kind; underlying = v.underlying; legs = legs }

-- The inner function `build`.
unfoldable pub build : View → List Leg → Decimal → Chosen (Structure × Decimal)
build v legs net = let s = structure_of v legs in asserted s net (assert_defined_risk s)

-- `spot - move` and `spot + move`
abbrev pub low_end : View → Decimal
low_end v = v.spot -ℤ v.move

abbrev pub high_end : View → Decimal
high_end v = v.spot +ℤ v.move

-- The short put of a credit, and the long put `width` below it.
unfoldable pub put_wing : View → Chosen (ContractQuote × ContractQuote)
put_wing v = do
  width ← wing_width v.all_puts v.spot v.wing_pct
  s ←
      pick (at_or_below v.puts (low_end v)) (at_or_below v.all_puts (low_end v)) (low_end v)
        (times width v.reach)
  l ← pick (below v.puts s.strike) (below v.all_puts s.strike) (pos s.strike -ℤ width) width
  chosen (s, l)

-- The short call of a credit, and the long call `width` above it.
unfoldable pub call_wing : View → Chosen (ContractQuote × ContractQuote)
call_wing v = do
  width ← wing_width v.all_calls v.spot v.wing_pct
  s ←
      pick (at_or_above v.calls (high_end v)) (at_or_above v.all_calls (high_end v)) (high_end v)
        (times width v.reach)
  l ← pick (above v.calls s.strike) (above v.all_calls s.strike) (pos s.strike +ℤ width) width
  chosen (s, l)

unfoldable pub build_kind : StructureKind → View → Chosen (Structure × Decimal)
build_kind bull_put_spread v = do
  w ← put_wing v
  refuse_if (leb w.0.strike w.1.strike)
  build v (leg_of w.0 short ∷ leg_of w.1 long ∷ []) (neg (mid w.0 -ℤ mid w.1))
build_kind bear_call_spread v = do
  w ← call_wing v
  refuse_if (leb w.1.strike w.0.strike)
  build v (leg_of w.0 short ∷ leg_of w.1 long ∷ []) (neg (mid w.0 -ℤ mid w.1))
build_kind iron_condor v = do
  p ← put_wing v
  c ← call_wing v
  refuse_if (leb p.0.strike p.1.strike || leb c.1.strike c.0.strike)
  build v (leg_of p.0 short ∷ leg_of p.1 long ∷ leg_of c.0 short ∷ leg_of c.1 long ∷ [])
      (neg ((mid p.0 -ℤ mid p.1) +ℤ (mid c.0 -ℤ mid c.1)))
build_kind call_debit_spread v = do
  width ← wing_width v.all_calls v.spot v.wing_pct
  l ← pick v.calls v.all_calls v.spot (times width v.reach)
  s ← pick (above v.calls l.strike) (above v.all_calls l.strike) (high_end v) width
  refuse_if (leb s.strike l.strike)
  build v (leg_of l long ∷ leg_of s short ∷ []) (mid l -ℤ mid s)
build_kind put_debit_spread v = do
  width ← wing_width v.all_puts v.spot v.wing_pct
  l ← pick v.puts v.all_puts v.spot (times width v.reach)
  s ← pick (below v.puts l.strike) (below v.all_puts l.strike) (low_end v) width
  refuse_if (leb l.strike s.strike)
  build v (leg_of l long ∷ leg_of s short ∷ []) (mid l -ℤ mid s)
build_kind long_strangle v = do
  width ← wing_width v.all_calls v.spot v.wing_pct
  c ← pick (above_price v.calls v.spot) (above_price v.all_calls v.spot) (high_end v) width
  p ← pick (below_price v.puts v.spot) (below_price v.all_puts v.spot) (low_end v) width
  build v (leg_of c long ∷ leg_of p long ∷ []) (mid c +ℤ mid p)

-- What `build_structure` hands to `_build_from`, and the move that this starts from.
abbrev pub view_of : StructureKind → List ContractQuote → Decimal → Decimal → ℕ → Config → View
view_of kind chain spot expected underlying cfg =
    let calls = side_of call chain in
    let puts = side_of put chain in
    record {
      kind = kind;
      underlying = underlying;
      calls = liquid calls cfg;
      puts = liquid puts cfg;
      all_calls = calls;
      all_puts = puts;
      spot = spot;
      move = over (times spot (max_ℤ expected cfg.signal.min_move_pct_for_strikes)) (whole 100);
      wing_pct = cfg.signal.wing_width_pct;
      reach = cfg.signal.strike_liquidity_tolerance_widths;
    }

-- `build_structure`
unfoldable pub build_structure :
    StructureKind
    → List ContractQuote
    → Decimal
    → Decimal
    → ℕ
    → Config
    → Chosen (Structure × Decimal)
build_structure kind chain spot expected underlying cfg = do
  refuse_if (leb_ℤ spot (pos 0))
  build_kind kind (view_of kind chain spot expected underlying cfg)

-- `by_symbol.get(symbol)`, of a dict in which a later quote of a symbol replaces an earlier one
unfoldable pub quote_of : ℕ → List ContractQuote → Option ContractQuote
quote_of symbol [] = none
quote_of symbol (c ∷ cs) = elim (quote_of symbol cs) [
  | some d ↦ some d
  | none ↦ if symbol == c.symbol then some c else none
]

-- The quotes of the legs that the chain has.
abbrev pub quotes_of : List ContractQuote → List Leg → List ContractQuote
quotes_of chain [] = []
quotes_of chain (l ∷ ls) =
    let rest = quotes_of chain ls in
    elim (quote_of l.symbol chain) [ some c ↦ c ∷ rest | none ↦ rest ]

-- The larger of two spreads, where nothing stands for infinity.
abbrev pub wider : Option Decimal → Option Decimal → Option Decimal
wider (some a) (some b) = some (max_ℤ a b)
wider _ _ = none

unfoldable pub worst_spread : ContractQuote → List ContractQuote → Option Decimal
worst_spread c [] = spread_pct_of_mid c
worst_spread c (d ∷ ds) = wider (spread_pct_of_mid c) (worst_spread d ds)

unfoldable pub least_interest : ContractQuote → List ContractQuote → ℕ
least_interest c [] = c.open_interest
least_interest c (d ∷ ds) = min c.open_interest (least_interest d ds)

abbrev pub liquidity_of : List ContractQuote → Option Decimal × ℕ
liquidity_of [] = (none, 0)
liquidity_of (c ∷ cs) = (worst_spread c cs, least_interest c cs)

-- `structure_liquidity`
unfoldable pub structure_liquidity : Structure → List ContractQuote → Option Decimal × ℕ
structure_liquidity s chain = liquidity_of (quotes_of chain s.legs)

abbrev pub leg_cost : ℕ → Option ContractQuote → Option Decimal
leg_cost ratio none = none
leg_cost ratio (some c) =
    if leb_ℤ c.ask c.bid then none else some (pos ratio *ℤ (pos 100 *ℤ (c.ask -ℤ c.bid)))

abbrev pub add_cost : Option Decimal → Option Decimal → Option Decimal
add_cost (some a) (some b) = some (a +ℤ b)
add_cost _ _ = none

-- The loop over the legs; nothing where it returns 0.0 for an unknown cost.
unfoldable pub cost_of : List ContractQuote → List Leg → Option Decimal
cost_of chain [] = some (pos 0)
cost_of chain (l ∷ ls) =
    add_cost (leg_cost l.ratio_qty (quote_of l.symbol chain)) (cost_of chain ls)

abbrev pub known_cost : Option Decimal → Decimal
known_cost none = pos 0
known_cost (some c) = c

-- `structure_round_trip_cost`
unfoldable pub structure_round_trip_cost : Structure → List ContractQuote → Decimal
structure_round_trip_cost s chain = known_cost (cost_of chain s.legs)
