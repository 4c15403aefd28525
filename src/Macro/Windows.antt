-- ===== src/Macro/Windows.antt =====
-- When a release of glassbox/macro.py is near.
use glassbox_ai_quant.Prelude.{
  if◌then◌else◌, Bool-cases, is_some, All, ℕ, ◌≡◌, refl, sym, ap, ◌∙◌, ◌↔◌, ◌⊎◌, inl, inr, Bool,
  true, false, Option, none, some, List, [], ◌∷◌, arith,
}
use glassbox_ai_quant.Prelude.Int.{ℤ, pos, ◌+ℤ◌, ◌-ℤ◌, ◌≤ℤ◌}
use glassbox_ai_quant.Clock.{Instant, hours}
use glassbox_ai_quant.Macro.{
  EventText, malformed_event, without_offset, event_at_instant, MacroEvent, MacroCfg, MacroWindow,
  Release, release_le, insert_release, parse_event, parse_events, minutes, is_near, first_near,
  first_after, pick_window, window_among, current_window,
}

-- A configured release whose text can be parsed and has an offset.
pub Scheduled : Instant → List MacroEvent → Type 0
Scheduled t [] = ⊥
Scheduled t (e ∷ es) = (e.at ≡ event_at_instant t) ⊎ Scheduled t es

InReleases : Instant → List Release → Type 0
InReleases t [] = ⊥
InReleases t (r ∷ rs) = (t ≡ r.0) ⊎ InReleases t rs

either : {A B C : Type 0} → A ⊎ (B ⊎ C) → B ⊎ (A ⊎ C)
either (inl a) = inr (inl a)
either (inr (inl b)) = inl b
either (inr (inr c)) = inr (inr c)

placed :
    (t : Instant) (b : Bool) (r q : Release) (qs rest : List Release)
    → InReleases t rest ↔ ((t ≡ r.0) ⊎ InReleases t qs)
    → InReleases t (if b then r ∷ q ∷ qs else q ∷ rest)
      ↔ ((t ≡ r.0) ⊎ ((t ≡ q.0) ⊎ InReleases t qs))
unfolding InReleases
placed t true r q qs rest h = (λ x. x, λ x. x)
placed t false r q qs rest h = (λ x. go x, λ x. back x)
  where
    go : (t ≡ q.0) ⊎ InReleases t rest → (t ≡ r.0) ⊎ ((t ≡ q.0) ⊎ InReleases t qs)
    go (inl e) = inr (inl e)
    go (inr k) = either (inr (h.0 k))

    back : (t ≡ r.0) ⊎ ((t ≡ q.0) ⊎ InReleases t qs) → (t ≡ q.0) ⊎ InReleases t rest
    back (inl e) = inr (h.1 (inl e))
    back (inr (inl e)) = inl e
    back (inr (inr k)) = inr (h.1 (inr k))

insert_in :
    (t : Instant) (r : Release) (rs : List Release)
    → InReleases t (insert_release r rs) ↔ ((t ≡ r.0) ⊎ InReleases t rs)
unfolding insert_release InReleases
insert_in t r [] = (λ h. h, λ h. h)
insert_in t r (q ∷ qs) = placed t (release_le r q) r q qs (insert_release r qs) (insert_in t r qs)

instant_of : EventText → Instant
instant_of (event_at_instant u) = u
instant_of _ = pos 0

-- The releases with one more entry, where it has an offset or cannot be parsed.
abbrev released : EventText → ℕ → List Release → List Release
released (event_at_instant t) n rest = insert_release (t, n) rest
released _ n rest = rest

parsed_one :
    (t : Instant) (e : EventText) (n : ℕ) (rest : List Release)
    → InReleases t (released e n rest) ↔ ((e ≡ event_at_instant t) ⊎ InReleases t rest)
unfolding instant_of
parsed_one t (event_at_instant u) n rest =
    (λ h. go ((insert_in t (u, n) rest).0 h), λ h. (insert_in t (u, n) rest).1 (back h))
  where
    go : (t ≡ u) ⊎ InReleases t rest → (event_at_instant u ≡ event_at_instant t) ⊎ InReleases t rest
    go (inl e) = inl (ap event_at_instant (sym e))
    go (inr k) = inr k

    back :
        (event_at_instant u ≡ event_at_instant t) ⊎ InReleases t rest → (t ≡ u) ⊎ InReleases t rest
    back (inl e) = inl (sym (ap instant_of e))
    back (inr k) = inr k
parsed_one t malformed_event n rest = (λ h. inr h, λ h. back h)
  where
    back : (malformed_event ≡ event_at_instant t) ⊎ InReleases t rest → InReleases t rest
    back (inl e) = absurd (ground arith)
    back (inr k) = k
parsed_one t without_offset n rest = (λ h. inr h, λ h. back h)
  where
    back : (without_offset ≡ event_at_instant t) ⊎ InReleases t rest → InReleases t rest
    back (inl e) = absurd (ground arith)
    back (inr k) = k

either_map : {A B C : Type 0} → (B → C) → A ⊎ B → A ⊎ C
either_map f (inl a) = inl a
either_map f (inr b) = inr (f b)

abbrev pub lacks_offset : EventText → Bool
lacks_offset without_offset = true
lacks_offset _ = false

-- No entry is a time without an offset.
abbrev pub HasOffsets : List MacroEvent → Type 0
HasOffsets es = All (λ (e : MacroEvent). lacks_offset e.at ≡ false) es

parse_event_lem :
    (at : EventText) (n : ℕ) (rest : List Release)
    → parse_event (record { at = at; name = n }) (some rest)
      ≡ (if lacks_offset at then none else some (released at n rest))
parse_event_lem malformed_event n rest = refl
parse_event_lem without_offset n rest = refl
parse_event_lem (event_at_instant t) n rest = refl

-- What becomes of the configured entries.
data Parsing (es : List MacroEvent) : Option (List Release) → Type 0 where
  type_error : ¬ HasOffsets es → Parsing es none
  releases :
      (rs : List Release)
      → HasOffsets es
      → ((t : Instant) → InReleases t rs ↔ Scheduled t es)
      → Parsing es (some rs)

parsing_step :
    (e : MacroEvent) (es : List MacroEvent) (o : Option (List Release))
    → Parsing es o
    → Parsing (e ∷ es) (parse_event e o)
unfolding Scheduled
parsing_step e es none (type_error x) = type_error (λ h. x h.1)
parsing_step e es (some _) (releases qs all_have same) = elim (Bool-cases (lacks_offset e.at)) [
  | inl q ↦
      rw (parse_event_lem e.at e.name qs, q) (type_error (λ h. absurd (ground (arith, h.0, q))))
  | inr q ↦
      rw (parse_event_lem e.at e.name qs, q)
        (releases (released e.at e.name qs) (q, all_have)
          (λ t. (
            λ h. either_map (same t).0 ((parsed_one t e.at e.name qs).0 h),
            λ h. (parsed_one t e.at e.name qs).1 (either_map (same t).1 h),
          )))
]

parsing : (es : List MacroEvent) → Parsing es (parse_events es)
unfolding parse_events InReleases Scheduled
parsing [] = releases [] tt (λ t. (λ h. h, λ h. h))
parsing (e ∷ es) = parsing_step e es (parse_events es) (parsing es)

-- A scheduled release whose window `now` is in.
pub record IsNear (cfg : MacroCfg) (now : Instant) : Type 0 where
  pub release : Instant
  pub scheduled : Scheduled release cfg.events
  pub begun : release -ℤ hours cfg.blackout_before_hours ≤ℤ now
  pub lasting : now ≤ℤ release +ℤ minutes cfg.blackout_after_minutes

found_if :
    (b : Bool) (r : Release) (o : Option Release)
    → (is_some (if b then some r else o) ≡ true) ↔ ((b ≡ true) ⊎ (is_some o ≡ true))
found_if true r o = (λ h. inl refl, λ h. refl)
found_if false r o = (λ h. inr h, λ h. back h)
  where
    back : (false ≡ true) ⊎ (is_some o ≡ true) → is_some o ≡ true
    back (inl e) = absurd (ground arith)
    back (inr e) = e

module _ (before after : ℤ) (now : Instant) where
  abbrev Found : List Release → Type 0
  Found rs = (t : Instant) × (InReleases t rs × (is_near before after now t ≡ true))

  near-Found : (rs : List Release) → (is_some (first_near before after now rs) ≡ true) ↔ Found rs
  unfolding first_near InReleases
  near-Found [] = (λ h. absurd (ground arith), λ h. absurd h.1.0)
  near-Found (r ∷ rs) = (
    λ h.
        go (near-Found rs).0
          ((found_if (is_near before after now r.0) r (first_near before after now rs)).0 h),
    λ h.
        (found_if (is_near before after now r.0) r (first_near before after now rs)).1
          (back (near-Found rs).1 h),
  )
    where
      go :
          (is_some (first_near before after now rs) ≡ true → Found rs)
          → (is_near before after now r.0 ≡ true)
            ⊎ (is_some (first_near before after now rs) ≡ true)
          → Found (r ∷ rs)
      go rec (inl e) = (r.0, (inl refl, e))
      go rec (inr e) = let (t, (k, n)) = rec e in (t, (inr k, n))

      back :
          (Found rs → is_some (first_near before after now rs) ≡ true)
          → Found (r ∷ rs)
          → (is_near before after now r.0 ≡ true)
            ⊎ (is_some (first_near before after now rs) ≡ true)
      back rec (t, (inl e, n)) = inl (rw (← e) n)
      back rec (t, (inr k, n)) = inr (rec (t, (k, n)))

is_near_lem :
    (before after : ℤ) (now t : Instant)
    → (is_near before after now t ≡ true) ↔ ((t -ℤ before ≤ℤ now) × (now ≤ℤ t +ℤ after))
is_near_lem before after now t = (λ h. (ground arith, ground arith), λ h. ground (arith, h.0, h.1))

picked : (now : Instant) (o later : Option Release) → (pick_window now o later).active ≡ is_some o
picked now none none = refl
picked now none (some r) = refl
picked now (some r) later = refl

abbrev pub is_active : Option MacroWindow → Bool
is_active none = false
is_active (some w) = w.active

among_exact :
    (cfg : MacroCfg) (now : Instant) (o : Option (List Release))
    → Parsing cfg.events o
    → ((is_some (window_among cfg now o) ≡ true) ↔ HasOffsets cfg.events)
      × ((is_active (window_among cfg now o) ≡ true) ↔ (HasOffsets cfg.events × IsNear cfg now))
among_exact cfg now none (type_error x) = (
  (λ h. absurd (ground (arith, h)), λ h. absurd (x h)),
  (λ h. absurd (ground (arith, h)), λ h. absurd (x h.0)),
)
among_exact cfg now (some _) (releases qs all_have in_rs) =
    let before = hours cfg.blackout_before_hours in
    let after = minutes cfg.blackout_after_minutes in
    let same = picked now (first_near before after now qs) (first_after now qs) in
    let found = near-Found before after now qs in
    (
      (λ h. all_have, λ h. refl),
      (
        λ h.
            let (t, (k, n)) = found.0 (sym same ∙ h) in
            let ends = (is_near_lem before after now t).0 n in
            (
              all_have,
              record { release = t; scheduled = (in_rs t).0 k; begun = ends.0; lasting = ends.1 },
            ),
        λ n.
            same
            ∙ found.1 (
              n.1.release,
              (
                (in_rs n.1.release).1 n.1.scheduled,
                (is_near_lem before after now n.1.release).1 (n.1.begun, n.1.lasting),
              ),
            ),
      ),
    )

-- `current_window` returns a window exactly when no configured text is a time without an offset, else it
-- raises. The window is active exactly when, besides, `now` is in the window of some configured release
-- with an offset: from the hours before it up to the minutes after it, both ends included.
pub active_exact :
    (cfg : MacroCfg) (now : Instant)
    → ((is_some (current_window cfg now) ≡ true) ↔ HasOffsets cfg.events)
      × ((is_active (current_window cfg now) ≡ true) ↔ (HasOffsets cfg.events × IsNear cfg now))
unfolding current_window
active_exact cfg now = among_exact cfg now (parse_events cfg.events) (parsing cfg.events)
