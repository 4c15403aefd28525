-- ===== src/Guards/Peak.antt =====
-- The peak and the day's baseline of glassbox/supervisor/guards.py over a run of ticks.
use glassbox_ai_quant.Prelude.{
  if◌then◌else◌, Bool-cases, is_some, All, ℕ, ◌≡◌, refl, ◌≢◌, inl, inr, true, Option, none, some,
  List, [], ◌∷◌, arith,
}
use glassbox_ai_quant.Prelude.Int.{
  pos, ◌≤ℤ◌, ltb_ℤ, ◌==ℤ◌, max_ℤ, eq_of_parts, max_ℤ-ge_left, max_ℤ-ge_right,
}
use glassbox_ai_quant.Prelude.Decimal.{Decimal}
use glassbox_ai_quant.SystemState.{SystemState}
use glassbox_ai_quant.Guards.{stored_peak, highest_of, update_peak_equity, session_baseline}

-- What the broker says of its own peak bounds the result; 0 counts as not said.
abbrev pub IsCovered : Option Decimal → Decimal → Type 0
IsCovered none h = Unit
IsCovered (some b) h = b ≢ pos 0 → b ≤ℤ h

highest_covers :
    (peak equity : Decimal) (broker : Option Decimal)
    → (peak ≤ℤ highest_of peak equity broker)
      × (equity ≤ℤ highest_of peak equity broker)
      × IsCovered broker (highest_of peak equity broker)
unfolding highest_of
highest_covers peak equity none = (max_ℤ-ge_left peak equity, max_ℤ-ge_right peak equity, tt)
highest_covers peak equity (some b) = elim (Bool-cases (b ==ℤ pos 0)) [
  | inl e ↦ rw e (
    max_ℤ-ge_left peak equity,
    max_ℤ-ge_right peak equity,
    λ ne. absurd (ne (ground (arith, eq_of_parts b (pos 0)))),
  )
  | inr e ↦ rw e (
    omega (arith, max_ℤ-ge_left peak equity, max_ℤ-ge_left (max_ℤ peak equity) b),
    omega (arith, max_ℤ-ge_right peak equity, max_ℤ-ge_left (max_ℤ peak equity) b),
    λ ne. max_ℤ-ge_right (max_ℤ peak equity) b,
  )
]

-- One update: the result covers the stored peak, the equity and the broker's peak, and it is what
-- the store holds afterwards.
pub update_peak_ratchets :
    (equity : Decimal) (broker : Option Decimal) (s : SystemState)
    → let (h, s') = update_peak_equity equity broker s in
      (stored_peak s ≤ℤ h) × (equity ≤ℤ h) × IsCovered broker h × (stored_peak s' ≡ h)
unfolding update_peak_equity
update_peak_ratchets equity broker s =
    let h = highest_covers (stored_peak s) equity broker in (h.0, h.1, h.2, kept h.0)
  where
    highest : Decimal
    highest = highest_of (stored_peak s) equity broker

    kept :
        stored_peak s ≤ℤ highest
        → stored_peak
            (if ltb_ℤ (stored_peak s) highest then record s { peak_equity = some highest } else s)
          ≡ highest
    kept below = elim (Bool-cases (ltb_ℤ (stored_peak s) highest)) [
      | inl e ↦ rw e refl
      | inr e ↦ rw e (eq_of_parts (stored_peak s) highest (ground arith))
    ]

-- The peaks that a run of ticks stores, one tick for each equity and broker peak.
pub observe : List (Decimal × Option Decimal) → SystemState → SystemState
observe [] s = s
observe ((e, b) ∷ rest) s = observe rest (update_peak_equity e b s).1

observe_grows :
    (es : List (Decimal × Option Decimal)) (s : SystemState)
    → stored_peak s ≤ℤ stored_peak (observe es s)
unfolding observe
observe_grows [] s = omega arith
observe_grows ((e, b) ∷ rest) s =
    let r = update_peak_ratchets e b s in
    let h = observe_grows rest (update_peak_equity e b s).1 in
    let start = r.0 in
    let lower : stored_peak s ≤ℤ stored_peak (update_peak_equity e b s).1 = rw r.3 start in
    omega (arith, lower, h)

-- Over any run of updates the stored peak never falls, and it ends at or above every equity that
-- was seen.
pub observe_covers :
    (es : List (Decimal × Option Decimal)) (s : SystemState)
    → (stored_peak s ≤ℤ stored_peak (observe es s))
      × All (λ e. e.0 ≤ℤ stored_peak (observe es s)) es
unfolding observe
observe_covers es s = (observe_grows es s, seen es s)
  where
    seen :
        (es : List (Decimal × Option Decimal)) (s : SystemState)
        → All (λ e. e.0 ≤ℤ stored_peak (observe es s)) es
    seen [] s = tt
    seen ((e, b) ∷ rest) s =
        let r = update_peak_ratchets e b s in
        let seen_now = r.1 in
        let lower : e ≤ℤ stored_peak (update_peak_equity e b s).1 = rw r.3 seen_now in
        (
          omega (arith, lower, observe_grows rest (update_peak_equity e b s).1),
          seen rest (update_peak_equity e b s).1,
        )

-- The baseline of a day is there once its date is.
abbrev pub IsRolled : ℕ → SystemState → Type 0
IsRolled today s = s.session_start_date ≡ some today → is_some s.session_start_equity ≡ true

-- Where a store that has today's date has a baseline too, the baseline of a new market day is the
-- equity of the first tick, and the next tick of the day gets the same baseline and leaves the
-- store alone, whatever the equity has become.
pub session_baseline_daily :
    (first later : Decimal) (today : ℕ) (s : SystemState)
    → IsRolled today s
    → let (base, s') = session_baseline first today s in
      (s.session_start_date ≢ some today → base ≡ first)
      × (session_baseline later today s' ≡ (base, s'))
unfolding session_baseline
session_baseline_daily first later today s h = (λ ne. ground arith, ground arith)
