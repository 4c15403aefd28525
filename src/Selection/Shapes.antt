-- ===== src/Selection/Shapes.antt =====
-- The shape of every structure that glassbox/chain.py builds.
use glassbox_ai_quant.Selection.Quotes.{chosen, ContractQuote, side_of, wing_width, pick}
use glassbox_ai_quant.Selection.Build.{
  leg_of, asserted, View, structure_of, build, low_end, high_end, put_wing, call_wing, build_kind,
  view_of, build_structure,
}
use glassbox_ai_quant.Selection.Picks.{
  Holds, Holds-bind, Holds-chosen, Holds-return, Holds-refuse, IsQuote, AllOf, pick-All, picked,
}
use glassbox_ai_quant.Selection.Sides.{side_of-AllOf, liquid-AllOf}
use glassbox_ai_quant.Prelude.{ltb, ℕ, ◌<◌, ◌≡◌, refl, List, [], ◌∷◌, arith}
use glassbox_ai_quant.Prelude.Int.{pos, ◌≤ℤ◌, ◌<ℤ◌, ltb_ℤ, leb_ℤ}
use glassbox_ai_quant.Prelude.Decimal.{Decimal}
use glassbox_ai_quant.Prelude.Cents.{round_cents}
use glassbox_ai_quant.Config.{Config}
use glassbox_ai_quant.Structures.{
  Right, call, put, long, short, StructureKind, bull_put_spread, bear_call_spread, iron_condor,
  call_debit_spread, put_debit_spread, long_strangle, Leg, Structure, Result, err, ok,
  assert_defined_risk,
}

-- The sides of a view are sides.
pub record IsSided (chain : List ContractQuote) (v : View) : Type 0 where
  pub calls : AllOf call chain v.calls
  pub puts : AllOf put chain v.puts
  pub all_calls : AllOf call chain v.all_calls
  pub all_puts : AllOf put chain v.all_puts

-- A short put at or below the low end of the move, and a long put below it.
abbrev pub IsPutWing : List ContractQuote → View → ContractQuote → ContractQuote → Type 0
IsPutWing chain v s l =
    IsQuote put chain s × IsQuote put chain l × (pos s.strike ≤ℤ low_end v) × (l.strike < s.strike)

-- A short call at or above the high end of the move, and a long call above it.
abbrev pub IsCallWing : List ContractQuote → View → ContractQuote → ContractQuote → Type 0
IsCallWing chain v s l =
    IsQuote call chain s
    × IsQuote call chain l
    × (high_end v ≤ℤ pos s.strike)
    × (s.strike < l.strike)

-- The legs that express a view by a structure of this kind.
abbrev pub IsShaped : List ContractQuote → StructureKind → View → List Leg → Type 0
IsShaped chain bull_put_spread v legs =
    (s l : ContractQuote) × IsPutWing chain v s l × (legs ≡ leg_of s short ∷ leg_of l long ∷ [])
IsShaped chain bear_call_spread v legs =
    (s l : ContractQuote) × IsCallWing chain v s l × (legs ≡ leg_of s short ∷ leg_of l long ∷ [])
IsShaped chain iron_condor v legs =
    (s l s' l' : ContractQuote) × IsPutWing chain v s l
    × IsCallWing chain v s' l'
    × (legs ≡ leg_of s short ∷ leg_of l long ∷ leg_of s' short ∷ leg_of l' long ∷ [])
IsShaped chain call_debit_spread v legs =
    (l s : ContractQuote) × IsQuote call chain l
    × IsQuote call chain s
    × (l.strike < s.strike)
    × (legs ≡ leg_of l long ∷ leg_of s short ∷ [])
IsShaped chain put_debit_spread v legs =
    (l s : ContractQuote) × IsQuote put chain l
    × IsQuote put chain s
    × (s.strike < l.strike)
    × (legs ≡ leg_of l long ∷ leg_of s short ∷ [])
IsShaped chain long_strangle v legs =
    (c p : ContractQuote) × IsQuote call chain c
    × IsQuote put chain p
    × (v.spot <ℤ pos c.strike)
    × (pos p.strike <ℤ v.spot)
    × (legs ≡ leg_of c long ∷ leg_of p long ∷ [])

Holds-asserted :
    (Q : Structure × Decimal → Type 0) (s : Structure) (net : Decimal) (r : Result (Unit {0}))
    → (r ≡ ok tt → Q (s, round_cents net))
    → Holds Q (asserted s net r)
unfolding Holds
Holds-asserted Q s net (err x) h = tt
Holds-asserted Q s net (ok _) h = h refl

-- The structure has the shape, and its risk is defined.
abbrev IsBuilt : List ContractQuote → View → Structure × Decimal → Type 0
IsBuilt chain v r = IsShaped chain v.kind v r.0.legs × (assert_defined_risk r.0 ≡ ok tt)

Holds-build :
    (chain : List ContractQuote) (v : View) (legs : List Leg) (net : Decimal)
    → IsShaped chain v.kind v legs
    → Holds (IsBuilt chain v) (build v legs net)
unfolding build
Holds-build chain v legs net h =
    Holds-asserted (IsBuilt chain v) (structure_of v legs) net
      (assert_defined_risk (structure_of v legs)) (λ e. (h, e))

abbrev AsPutWing : List ContractQuote → View → ContractQuote × ContractQuote → Type 0
AsPutWing chain v w = IsPutWing chain v w.0 w.1

abbrev AsCallWing : List ContractQuote → View → ContractQuote × ContractQuote → Type 0
AsCallWing chain v w = IsCallWing chain v w.0 w.1

module _ (chain : List ContractQuote) (v : View) (sides : IsSided chain v) where
  put_wing-IsPutWing : Holds (AsPutWing chain v) (put_wing v)
  unfolding put_wing
  put_wing-IsPutWing =
      Holds-bind (AsPutWing chain v) (wing_width v.all_puts v.spot v.wing_pct) _ (λ width _.
        Holds-bind (AsPutWing chain v) _ _ (λ s e. Holds-bind (AsPutWing chain v) _ _ (λ l f.
          let (low, is_put) =
            picked (λ (c : ContractQuote). leb_ℤ (pos c.strike) (low_end v)) put chain v.puts
              v.all_puts _ _ s sides.puts sides.all_puts e in
          let (lower, is_put') =
            picked (λ (c : ContractQuote). ltb c.strike s.strike) put chain v.puts v.all_puts _ _ l
              sides.puts sides.all_puts f in
          Holds-return (AsPutWing chain v) (s, l)
            (is_put, is_put', ground (arith, low), ground (arith, lower)))))

  call_wing-IsCallWing : Holds (AsCallWing chain v) (call_wing v)
  unfolding call_wing
  call_wing-IsCallWing =
      Holds-bind (AsCallWing chain v) (wing_width v.all_calls v.spot v.wing_pct) _ (λ width _.
        Holds-bind (AsCallWing chain v) _ _ (λ s e. Holds-bind (AsCallWing chain v) _ _ (λ l f.
          let (high, is_call) =
            picked (λ (c : ContractQuote). leb_ℤ (high_end v) (pos c.strike)) call chain v.calls
              v.all_calls _ _ s sides.calls sides.all_calls e in
          let (higher, is_call') =
            picked (λ (c : ContractQuote). ltb s.strike c.strike) call chain v.calls v.all_calls _ _
              l sides.calls sides.all_calls f in
          Holds-return (AsCallWing chain v) (s, l)
            (is_call, is_call', ground (arith, high), ground (arith, higher)))))

nearest_pick :
    (r : Right) (chain cs full : List ContractQuote) (t tol : Decimal) (c : ContractQuote)
    → AllOf r chain cs
    → AllOf r chain full
    → pick cs full t tol ≡ chosen c
    → IsQuote r chain c
nearest_pick r chain cs full t tol c h k e = pick-All (IsQuote r chain) cs full t tol c h k e

IsShaped-of :
    (chain : List ContractQuote) (a b : StructureKind) (v : View) (legs : List Leg)
    → a ≡ b
    → IsShaped chain b v legs
    → IsShaped chain a v legs
IsShaped-of chain a b v legs e h = rw e h

build_kind-IsBuilt :
    (chain : List ContractQuote) (kind : StructureKind) (v : View)
    → v.kind ≡ kind
    → IsSided chain v
    → Holds (IsBuilt chain v) (build_kind kind v)
unfolding build_kind
build_kind-IsBuilt chain bull_put_spread v k sides = Holds-bind (IsBuilt chain v) _ _ (λ w e.
    Holds-refuse (IsBuilt chain v) _ _ (λ _. Holds-build chain v _ _ (
      IsShaped-of chain v.kind bull_put_spread v _ k (
        w.0,
        w.1,
        Holds-chosen (AsPutWing chain v) (put_wing v) w (put_wing-IsPutWing chain v sides) e,
        refl,
      ))))
build_kind-IsBuilt chain bear_call_spread v k sides = Holds-bind (IsBuilt chain v) _ _ (λ w e.
    Holds-refuse (IsBuilt chain v) _ _ (λ _. Holds-build chain v _ _ (
      IsShaped-of chain v.kind bear_call_spread v _ k (
        w.0,
        w.1,
        Holds-chosen (AsCallWing chain v) (call_wing v) w (call_wing-IsCallWing chain v sides) e,
        refl,
      ))))
build_kind-IsBuilt chain iron_condor v k sides = Holds-bind (IsBuilt chain v) _ _ (λ p e.
    Holds-bind (IsBuilt chain v) _ _ (λ c f. Holds-refuse (IsBuilt chain v) _ _ (λ _.
      Holds-build chain v _ _ (
        IsShaped-of chain v.kind iron_condor v _ k (
          p.0,
          p.1,
          c.0,
          c.1,
          Holds-chosen (AsPutWing chain v) (put_wing v) p (put_wing-IsPutWing chain v sides) e,
          Holds-chosen (AsCallWing chain v) (call_wing v) c (call_wing-IsCallWing chain v sides) f,
          refl,
        )))))
build_kind-IsBuilt chain call_debit_spread v k sides = Holds-bind (IsBuilt chain v) _ _ (λ width _.
    Holds-bind (IsBuilt chain v) _ _ (λ l e. Holds-bind (IsBuilt chain v) _ _ (λ s f.
      Holds-refuse (IsBuilt chain v) _ _ (λ _.
        let is_call =
          nearest_pick call chain v.calls v.all_calls _ _ l sides.calls sides.all_calls e in
        let (higher, is_call') =
          picked (λ (c : ContractQuote). ltb l.strike c.strike) call chain v.calls v.all_calls _ _ s
            sides.calls sides.all_calls f in
        Holds-build chain v _ _ (
          IsShaped-of chain v.kind call_debit_spread v _ k
            (l, s, is_call, is_call', ground (arith, higher), refl))))))
build_kind-IsBuilt chain put_debit_spread v k sides = Holds-bind (IsBuilt chain v) _ _ (λ width _.
    Holds-bind (IsBuilt chain v) _ _ (λ l e. Holds-bind (IsBuilt chain v) _ _ (λ s f.
      Holds-refuse (IsBuilt chain v) _ _ (λ _.
        let is_put = nearest_pick put chain v.puts v.all_puts _ _ l sides.puts sides.all_puts e in
        let (lower, is_put') =
          picked (λ (c : ContractQuote). ltb c.strike l.strike) put chain v.puts v.all_puts _ _ s
            sides.puts sides.all_puts f in
        Holds-build chain v _ _ (
          IsShaped-of chain v.kind put_debit_spread v _ k
            (l, s, is_put, is_put', ground (arith, lower), refl))))))
build_kind-IsBuilt chain long_strangle v k sides = Holds-bind (IsBuilt chain v) _ _ (λ width _.
    Holds-bind (IsBuilt chain v) _ _ (λ c e. Holds-bind (IsBuilt chain v) _ _ (λ p f.
      let (high, is_call) =
        picked (λ (q : ContractQuote). ltb_ℤ v.spot (pos q.strike)) call chain v.calls v.all_calls _
          _ c sides.calls sides.all_calls e in
      let (low, is_put) =
        picked (λ (q : ContractQuote). ltb_ℤ (pos q.strike) v.spot) put chain v.puts v.all_puts _ _
          p sides.puts sides.all_puts f in
      Holds-build chain v _ _ (
        IsShaped-of chain v.kind long_strangle v _ k
          (c, p, is_call, is_put, ground (arith, high), ground (arith, low), refl)))))

view-IsSided :
    (kind : StructureKind) (chain : List ContractQuote) (spot expected : Decimal) (u : ℕ)
    (cfg : Config)
    → IsSided chain (view_of kind chain spot expected u cfg)
view-IsSided kind chain spot expected u cfg = record {
  calls = liquid-AllOf call chain (side_of call chain) cfg (side_of-AllOf call chain);
  puts = liquid-AllOf put chain (side_of put chain) cfg (side_of-AllOf put chain);
  all_calls = side_of-AllOf call chain;
  all_puts = side_of-AllOf put chain;
}

-- Whatever structure `build_structure` returns has the legs of its kind, each from a quote of the chain
-- that is of the leg's right and has a bid above zero and a higher ask: a credit is sold at or beyond
-- the end of the expected move and bought further out, a debit is bought nearer than it is sold, and a
-- strangle is bought outside the spot price. Its risk is defined.
pub built-IsShaped :
    (kind : StructureKind) (chain : List ContractQuote) (spot expected : Decimal) (u : ℕ)
    (cfg : Config) (st : Structure) (net : Decimal)
    → build_structure kind chain spot expected u cfg ≡ chosen (st, net)
    → IsShaped chain kind (view_of kind chain spot expected u cfg) st.legs
      × (assert_defined_risk st ≡ ok tt)
unfolding build_structure
built-IsShaped kind chain spot expected u cfg st net e =
    let v = view_of kind chain spot expected u cfg in
    Holds-chosen (IsBuilt chain v) _ (st, net)
      (Holds-refuse (IsBuilt chain v) (leb_ℤ spot (pos 0)) _
        (λ _. build_kind-IsBuilt chain kind v refl (view-IsSided kind chain spot expected u cfg)))
      e
