-- ===== src/Tests/Calendars.antt =====
-- Runs of glassbox/macro.py, glassbox/data/corporate.py and glassbox/portfolio.py.
use glassbox_ai_quant.Prelude.{is_some, ◌≡◌, refl, ◌↔◌, true, none, List, [], ◌∷◌}
use glassbox_ai_quant.Prelude.Int.{pos}
use glassbox_ai_quant.Prelude.Decimal.{whole}
use glassbox_ai_quant.Clock.{hours}
use glassbox_ai_quant.Macro.{
  malformed_event, without_offset, event_at_instant, MacroCfg, parse_events, current_window,
}
use glassbox_ai_quant.Macro.Windows.{HasOffsets, IsNear, is_active, active_exact}
use glassbox_ai_quant.Corporate.{dividend, CorporateEvent}
use glassbox_ai_quant.Portfolio.{HeldRow}

-- One release, at ten hours, and an entry that cannot be parsed.
abbrev releases : MacroCfg
releases = record {
  blackout_before_hours = whole 4;
  blackout_after_minutes = whole 30;
  near_event_size_factor = pos 500000;
  events =
      record { at = malformed_event; name = 1 }
      ∷ record { at = event_at_instant (hours (whole 10)); name = 2 }
      ∷ [];
}

-- A time without an offset is a TypeError, inside the window of the other release too.
offset_missing :
    current_window
      (record releases { events = record { at = without_offset; name = 3 } ∷ releases.events })
      (hours (whole 7))
    ≡ none
unfolding current_window parse_events
offset_missing = refl

active_exact_example :
    ((is_some (current_window releases (hours (whole 7))) ≡ true) ↔ HasOffsets releases.events)
    × ((is_active (current_window releases (hours (whole 7))) ≡ true)
        ↔ (HasOffsets releases.events × IsNear releases (hours (whole 7))))
active_exact_example = active_exact releases (hours (whole 7))

abbrev dividends : List CorporateEvent
dividends = record { symbol = 7; kind = dividend; effective = 12 } ∷ []

abbrev held_rows : List HeldRow
held_rows =
    record { position_id = 1; underlying = 7; max_loss = whole 380 }
    ∷ record { position_id = 2; underlying = 7; max_loss = whole 250 }
    ∷ []
