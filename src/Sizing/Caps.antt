-- ===== src/Sizing/Caps.antt =====
-- What a size of glassbox/sizing.py can cost at most.
use glassbox_ai_quant.Prelude.{
  Bool-cases, ◌≡◌, refl, inl, inr, true, not, ◌&&◌, Option, none, some, arith,
}
use glassbox_ai_quant.Prelude.Int.{
  ℤ, pos, negsuc, ◌*ℤ◌, ◌≤ℤ◌, ◌<ℤ◌, ltb_ℤ, ◌==ℤ◌, min_ℤ, floor_div, min_ℤ-le_left, min_ℤ-le_right,
}
use glassbox_ai_quant.Prelude.Decimal.{Decimal, percent_of}
use glassbox_ai_quant.Prelude.Rounding.{floor_div-mul-le, scaled_mono}
use glassbox_ai_quant.Config.{Config}
use glassbox_ai_quant.Sizing.{
  SizingResult, is_approved, sized, SizingInput, base_risk, risk_dollars, vol_budget, affordable,
  finish, with_vol, size_position,
}

-- As many spreads as a budget affords cost no more than the budget.
affordable-le : (q budget m : ℤ) → pos 0 <ℤ m → q ≤ℤ floor_div budget m → q *ℤ m ≤ℤ budget
affordable-le q budget (pos m) p h =
    omega
      (arith, scaled_mono q (floor_div budget (pos m)) m h, floor_div-mul-le budget m (omega arith))
affordable-le q budget (negsuc m) p h = absurd (omega arith)

module _ (i : SizingInput) (cfg : Config) where
  abbrev pub position_cap : Decimal
  position_cap = percent_of cfg.risk.max_loss_per_position_pct i.equity

  -- What holds of a result that is approved.
  abbrev pub IsCapped : SizingResult → Type 0
  IsCapped r =
      (r.qty *ℤ i.max_loss_per_spread ≤ℤ position_cap)
      × (r.qty *ℤ i.max_loss_per_spread ≤ℤ risk_dollars i cfg)
      × (r.r_dollars ≡ risk_dollars i cfg)

  -- The quantity is at most each of the three that it is the smallest of.
  finish-le :
      (fixed vol : ℤ)
      → is_approved (finish i cfg fixed vol) ≡ true
      → ((finish i cfg fixed vol).qty ≤ℤ fixed)
        × ((finish i cfg fixed vol).qty ≤ℤ vol)
        × ((finish i cfg fixed vol).qty ≤ℤ affordable position_cap i)
  unfolding finish
  finish-le fixed vol h = ground (
    arith,
    min_ℤ-le_left (min_ℤ fixed vol) (affordable position_cap i),
    min_ℤ-le_right (min_ℤ fixed vol) (affordable position_cap i),
    min_ℤ-le_left fixed vol,
    min_ℤ-le_right fixed vol,
  )

  finish-IsCapped :
      (vol : ℤ)
      → pos 0 <ℤ i.max_loss_per_spread
      → is_approved (finish i cfg (affordable (risk_dollars i cfg) i) vol) ≡ true
      → IsCapped (finish i cfg (affordable (risk_dollars i cfg) i) vol)
  unfolding finish
  finish-IsCapped vol p h =
      let le = finish-le (affordable (risk_dollars i cfg) i) vol h in
      (
        affordable-le (finish i cfg (affordable (risk_dollars i cfg) i) vol).qty position_cap
            i.max_loss_per_spread p le.2,
        affordable-le (finish i cfg (affordable (risk_dollars i cfg) i) vol).qty
            (risk_dollars i cfg) i.max_loss_per_spread p le.0,
        refl,
      )

  transfer :
      (x r : SizingResult)
      → x ≡ r
      → (is_approved x ≡ true → IsCapped x)
      → is_approved r ≡ true
      → IsCapped r
  transfer x r e f = rw e at f

  with_vol-IsCapped :
      (vol : Option Decimal) (r : SizingResult)
      → pos 0 <ℤ i.max_loss_per_spread
      → with_vol i cfg vol ≡ sized r
      → is_approved r ≡ true
      → IsCapped r
  unfolding with_vol
  with_vol-IsCapped none r p e =
      let q = affordable (risk_dollars i cfg) i in
      transfer (finish i cfg q q) r (ground arith) (finish-IsCapped q p)
  with_vol-IsCapped (some v) r p e =
      let q = affordable (risk_dollars i cfg) i in
      let u = affordable (vol_budget i cfg v) i in
      elim (Bool-cases (ltb_ℤ (pos 0) v && not (base_risk i cfg ==ℤ pos 0))) [
        | inl t ↦ transfer (finish i cfg q u) r (ground arith) (finish-IsCapped u p)
        | inr t ↦ transfer (finish i cfg q q) r (ground arith) (finish-IsCapped q p)
      ]

  -- An approved size costs at most the position's cap and at most the risk budget of the trade.
  pub size_position-IsCapped :
      (r : SizingResult) → size_position i cfg ≡ sized r → is_approved r ≡ true → IsCapped r
  unfolding size_position
  size_position-IsCapped r e h =
      with_vol-IsCapped i.underlying_vol r (ground arith) (ground arith) h
