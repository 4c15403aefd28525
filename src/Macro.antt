-- ===== src/Macro.antt =====
-- glassbox/macro.py: scheduled releases, and the blackout windows round them. The texts of a window
-- are left out; the next session's open needs the rules of a time zone, so it is an argument.
pub mod Windows
use glassbox_ai_quant.Prelude.{
  leb, if◌then◌else◌, ℕ, Bool, true, false, ◌&&◌, Option, none, some, List, [], ◌∷◌,
}
use glassbox_ai_quant.Prelude.Int.{ℤ, pos, ◌+ℤ◌, ◌-ℤ◌, ◌*ℤ◌, ltb_ℤ, leb_ℤ, ◌==ℤ◌}
use glassbox_ai_quant.Prelude.Decimal.{Decimal, whole, over}
use glassbox_ai_quant.Clock.{Instant, hours}

-- The text of an entry, by what `datetime.fromisoformat` makes of it: a ValueError, a datetime without an
-- offset, which cannot be compared with an instant, or an instant.
pub data EventText : Type 0 where
  malformed_event : EventText
  without_offset : EventText
  event_at_instant : Instant → EventText

pub record MacroEvent : Type 0 where
  pub at : EventText
  pub name : ℕ

pub record MacroCfg : Type 0 where
  pub blackout_before_hours : Decimal
  pub blackout_after_minutes : Decimal
  pub near_event_size_factor : Decimal
  pub events : List MacroEvent

pub record MacroWindow : Type 0 where
  pub active : Bool
  pub event_name : Option ℕ
  pub event_at : Option Instant
  pub minutes_until : Option Decimal

-- `MacroWindow(False)`
abbrev pub no_window : MacroWindow
no_window = record { active = false; event_name = none; event_at = none; minutes_until = none }

-- A parsed release: the instant, and the name.
abbrev pub Release : Type 0
Release = Instant × ℕ

-- The order of Python's tuples.
abbrev pub release_le : Release → Release → Bool
release_le (a, m) (b, n) = if a ==ℤ b then leb m n else ltb_ℤ a b

-- `sorted`, by insertion.
unfoldable pub insert_release : Release → List Release → List Release
insert_release r [] = r ∷ []
insert_release r (q ∷ qs) =
    let rest = insert_release r qs in if release_le r q then r ∷ q ∷ qs else q ∷ rest

-- The loop of `_parse_events`; a malformed entry is skipped, and one without an offset is a TypeError.
abbrev pub parse_event : MacroEvent → Option (List Release) → Option (List Release)
parse_event e none = none
parse_event e (some rest) = elim e.at [
  | event_at_instant t ↦ some (insert_release (t, e.name) rest)
  | without_offset ↦ none
  | _ ↦ some rest
]

-- `_parse_events`; nothing stands for the TypeError that an entry without an offset leads to: in
-- `sorted` beside entries with one, and else in the caller, at its first comparison with `now`.
unfoldable pub parse_events : List MacroEvent → Option (List Release)
unfolding insert_release
parse_events [] = some []
parse_events (e ∷ es) = parse_event e (parse_events es)

-- `(at - now).total_seconds() / 60`: a microsecond is a millionth of a second.
pub minutes_between : Instant → Instant → Decimal
unfolding over ◌-ℤ◌
minutes_between now at = over (at -ℤ now) (whole 60)

abbrev window : Bool → Instant → Release → MacroWindow
window active now (at, name) = record {
  active = active;
  event_name = some name;
  event_at = some at;
  minutes_until = some (minutes_between now at);
}

-- `timedelta(minutes=m)`
abbrev pub minutes : Decimal → ℤ
minutes m = pos 60 *ℤ m

-- `at - before <= now <= at + after`
abbrev pub is_near : ℤ → ℤ → Instant → Instant → Bool
is_near before after now at = leb_ℤ (at -ℤ before) now && leb_ℤ now (at +ℤ after)

-- The first loop of `current_window`.
unfoldable pub first_near : ℤ → ℤ → Instant → List Release → Option Release
first_near before after now [] = none
first_near before after now (r ∷ rs) =
    if is_near before after now r.0 then some r else first_near before after now rs

-- `upcoming[0]`
pub first_after : Instant → List Release → Option Release
first_after now [] = none
first_after now (r ∷ rs) = if ltb_ℤ now r.0 then some r else first_after now rs

abbrev upcoming_window : Instant → Option Release → MacroWindow
upcoming_window now none = no_window
upcoming_window now (some r) = window false now r

abbrev pub pick_window : Instant → Option Release → Option Release → MacroWindow
pick_window now none later = upcoming_window now later
pick_window now (some r) later = window true now r

abbrev pub window_among : MacroCfg → Instant → Option (List Release) → Option MacroWindow
window_among cfg now none = none
window_among cfg now (some releases) =
    let before = hours cfg.blackout_before_hours in
    let after = minutes cfg.blackout_after_minutes in
    some (pick_window now (first_near before after now releases) (first_after now releases))

-- `current_window`, or the TypeError
unfoldable pub current_window : MacroCfg → Instant → Option MacroWindow
unfolding first_near first_after minutes_between ◌+ℤ◌ ◌-ℤ◌ ◌*ℤ◌
current_window cfg now = window_among cfg now (parse_events cfg.events)

-- The loop of `release_before_next_open`.
first_within : Instant → Instant → List Release → Option Release
first_within now horizon [] = none
first_within now horizon (r ∷ rs) =
    if ltb_ℤ now r.0 && leb_ℤ r.0 horizon then some r else first_within now horizon rs

unfoldable pub release_before_next_open :
    (Instant → Instant) → MacroCfg → Instant → Option MacroWindow
unfolding first_within minutes_between ◌+ℤ◌ ◌*ℤ◌
release_before_next_open next_session_open cfg now =
    let horizon = next_session_open now +ℤ minutes cfg.blackout_after_minutes in
    elim (parse_events cfg.events) [
      | none ↦ none
      | some releases ↦ some (pick_window now (first_within now horizon releases) none)
    ]
