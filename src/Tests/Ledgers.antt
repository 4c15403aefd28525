-- ===== src/Tests/Ledgers.antt =====
-- Runs of glassbox/reconcile.py.
use glassbox_ai_quant.Prelude.{
  ℕ, ◌≡◌, refl, ◌↔◌, ◌⊎◌, true, false, none, some, List, [], ◌∷◌, arith,
}
use glassbox_ai_quant.Prelude.Int.{pos, negsuc, ◌+ℤ◌, ◌-ℤ◌, neg, min_ℤ, max_ℤ}
use glassbox_ai_quant.SystemState.{
  drawdown_guard, from_supervisor, breached, SystemState, is_halted, fresh,
}
use glassbox_ai_quant.Reconcile.{
  Books, BrokerPosition, open_positions, orders_in_flight, tally_legs, tally_rows, leg_quantities,
  tally_broker, broker_leg_quantities, is_arriving, is_leaving, detail, band_low, band_high,
  standing, symbol_standing, sorted_set, symbols, reconcile, enforce, Activity,
}
use glassbox_ai_quant.Reconcile.Latch.{
  IsForeign, enforce_exact, enforce_all, foreign_halt_stands, divergence_takes_over,
}
use glassbox_ai_quant.Reconcile.Nets.{Agrees, ok_exact}
use glassbox_ai_quant.Store.Rows.{opening, to_open, submitted}

-- An opening position whose entry order rests, and a broker that has filled a part of it.
abbrev resting : Books
resting = record {
  positions =
      record {
        position_id = 1;
        status = opening;
        qty = 2;
        legs =
            record { symbol = 5; is_long = false; ratio_qty = 1 }
            ∷ record { symbol = 6; is_long = true; ratio_qty = 1 }
            ∷ [];
      }
      ∷ [];
  orders =
      record { client_order_id = 9; position_id = 1; intent = to_open; status = submitted } ∷ [];
}

abbrev half_filled : List BrokerPosition
half_filled = record { symbol = 5; qty = negsuc 0 } ∷ record { symbol = 6; qty = pos 1 } ∷ []

half_filled_ok : (reconcile resting half_filled).ok ≡ true
unfolding reconcile detail leg_quantities broker_leg_quantities tally_rows tally_legs tally_broker
    open_positions orders_in_flight is_arriving is_leaving symbols sorted_set symbol_standing
    standing band_low band_high min_ℤ max_ℤ ◌+ℤ◌ ◌-ℤ◌ neg
half_filled_ok = refl

ok_exact_example :
    ((reconcile resting half_filled).ok ≡ true) ↔ ((s : ℕ) → Agrees resting half_filled s)
ok_exact_example = ok_exact resting half_filled

-- A halt that the supervisor latched.
abbrev halted : SystemState
halted = record fresh {
  halt_reason = some (breached drawdown_guard);
  halt_source = some from_supervisor;
}

halted-IsForeign : IsForeign halted
halted-IsForeign = record { halted = refl; elsewhere = λ e. ground arith }

foreign_halt_stands_example :
    enforce_all ((resting, half_filled) ∷ (resting, half_filled) ∷ []) halted ≡ halted
foreign_halt_stands_example =
    foreign_halt_stands halted ((resting, half_filled) ∷ (resting, half_filled) ∷ [])
      halted-IsForeign (half_filled_ok, (half_filled_ok, tt))

-- A broker that has a symbol that no record names.
abbrev stray : List BrokerPosition
stray = record { symbol = 8; qty = pos 1 } ∷ []

stray_differs : (reconcile resting stray).ok ≡ false
unfolding reconcile detail leg_quantities broker_leg_quantities tally_rows tally_legs tally_broker
    open_positions orders_in_flight is_arriving is_leaving symbols sorted_set symbol_standing
    standing band_low band_high min_ℤ max_ℤ ◌+ℤ◌ ◌-ℤ◌ neg
stray_differs = refl

divergence_takes_over_example :
    let s' = (enforce resting half_filled (enforce resting stray halted).0).0 in
    (is_halted s' ≡ false) × (s'.halt_source ≡ none)
divergence_takes_over_example =
    divergence_takes_over resting resting stray half_filled halted stray_differs half_filled_ok

enforce_exact_example :
    (is_halted (enforce resting stray halted).0 ≡ true)
    ↔ (((reconcile resting stray).ok ≡ false) ⊎ IsForeign halted)
enforce_exact_example = enforce_exact resting stray halted

abbrev assigned_once : List Activity
assigned_once = record { is_assignment = true; key = 41; symbol = 5 } ∷ []
