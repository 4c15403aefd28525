-- ===== src/Corporate.antt =====
-- glassbox/data/corporate.py: whether a corporate action blocks a trade. Dates are day numbers, and
-- the texts are left out. `fetch_events` asks the broker and is not modelled.
pub mod Blocking
use glassbox_ai_quant.Prelude.{
  leb, if◌then◌else◌, keep_if, ℕ, Bool, true, false, ◌&&◌, List, [], ◌∷◌,
}

pub data ActionKind : Type 0 where
  dividend split merger spinoff : ActionKind
  other : ActionKind  -- any other text

pub record CorporateEvent : Type 0 where
  pub symbol : ℕ
  pub kind : ActionKind
  pub effective : ℕ

pub record BlackoutResult : Type 0 where
  pub blocked : Bool
  pub events : List CorporateEvent

-- `e.kind in ("split", "merger", "spinoff") or (e.kind == "dividend" and is_credit)`
abbrev pub is_blocking : Bool → ActionKind → Bool
is_blocking is_credit dividend = is_credit
is_blocking is_credit other = false
is_blocking is_credit _ = true

-- `today <= e.effective <= horizon_end`
abbrev pub in_horizon : ℕ → ℕ → CorporateEvent → Bool
in_horizon today horizon_end e = leb today e.effective && leb e.effective horizon_end

abbrev pub nonempty : List CorporateEvent → Bool
nonempty [] = false
nonempty (e ∷ es) = true

-- `today` is the market's date if the caller gives none, so it is an argument.
unfoldable pub blackout : List CorporateEvent → ℕ → Bool → ℕ → BlackoutResult
blackout events horizon_end is_credit today =
    let relevant = keep_if (in_horizon today horizon_end) events in
    let blocking = keep_if (λ e. is_blocking is_credit e.kind) relevant in
    if nonempty blocking
    then record { blocked = true; events = blocking }
    else record { blocked = false; events = relevant }
