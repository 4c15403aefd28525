-- ===== src/Corporate/Blocking.antt =====
-- When `blackout` of glassbox/data/corporate.py blocks a trade.
use glassbox_ai_quant.Prelude.{
  Bool-cases, keep_if, ℕ, ◌≤◌, ◌≡◌, refl, ◌↔◌, ◌⊎◌, inl, inr, Bool, true, ◌&&◌, List, [], ◌∷◌,
  arith,
}
use glassbox_ai_quant.Corporate.{CorporateEvent, is_blocking, in_horizon, nonempty, blackout}

-- An event that is among the given ones.
abbrev pub Among : CorporateEvent → List CorporateEvent → Type 0
Among e [] = ⊥
Among e (f ∷ es) = (e ≡ f) ⊎ Among e es

-- A reason to block: an event in the horizon, a dividend only against a credit.
pub record Blocker (events : List CorporateEvent) (horizon_end today : ℕ) (is_credit : Bool)
    : Type 0 where
  pub event : CorporateEvent
  pub listed : Among event events
  pub not_past : today ≤ event.effective
  pub in_time : event.effective ≤ horizon_end
  pub blocks : is_blocking is_credit event.kind ≡ true

module _ (horizon_end today : ℕ) (is_credit : Bool) where
  abbrev blocking : List CorporateEvent → List CorporateEvent
  blocking events =
      keep_if (λ e. is_blocking is_credit e.kind) (keep_if (in_horizon today horizon_end) events)

  from_blocking :
      (events : List CorporateEvent)
      → nonempty (blocking events) ≡ true
      → Blocker events horizon_end today is_credit
  from_blocking [] h = absurd (ground arith)
  from_blocking (e ∷ events) h =
      elim (Bool-cases (in_horizon today horizon_end e && is_blocking is_credit e.kind)) [
        | inl met ↦ record {
          event = e;
          listed = inl refl;
          not_past = ground (arith, met);
          in_time = ground (arith, met);
          blocks = ground (arith, met);
        }
        | inr other_one ↦
            let k = from_blocking events (ground (arith, h, other_one)) in
            record {
              event = k.event;
              listed = inr k.listed;
              not_past = k.not_past;
              in_time = k.in_time;
              blocks = k.blocks;
            }
      ]

  first_blocks :
      (f : CorporateEvent) (events : List CorporateEvent)
      → today ≤ f.effective
      → f.effective ≤ horizon_end
      → is_blocking is_credit f.kind ≡ true
      → nonempty (blocking (f ∷ events)) ≡ true
  first_blocks f events p q b = ground arith

  to_blocking :
      (events : List CorporateEvent) (e : CorporateEvent)
      → Among e events
      → today ≤ e.effective
      → e.effective ≤ horizon_end
      → is_blocking is_credit e.kind ≡ true
      → nonempty (blocking events) ≡ true
  to_blocking [] e a p q b = absurd a
  to_blocking (f ∷ events) e (inl same) p q b =
      first_blocks f events (rw (← same) p) (rw (← same) q) (rw (← same) b)
  to_blocking (f ∷ events) e (inr a) p q b = ground (arith, to_blocking events e a p q b)

-- `blackout` blocks a trade exactly when some listed event takes effect from today up to the end of the
-- horizon and is a split, a merger or a spin-off, or a dividend where the trade is a credit.
pub blackout_exact :
    (events : List CorporateEvent) (horizon_end today : ℕ) (is_credit : Bool)
    → ((blackout events horizon_end is_credit today).blocked ≡ true)
      ↔ Blocker events horizon_end today is_credit
unfolding blackout
blackout_exact events horizon_end today is_credit = (
  λ h. from_blocking horizon_end today is_credit events (ground arith),
  λ k.
      rw
        (to_blocking horizon_end today is_credit events k.event k.listed k.not_past k.in_time
          k.blocks)
        refl,
)
