-- ===== src/Supervisor/Once.antt =====
-- A standing breach in a tick of glassbox/supervisor/run.py: it is answered once.
use glassbox_ai_quant.Prelude.{
  Bool-cases, ℕ, ◌≡◌, refl, ap, ◌∙◌, inl, inr, true, false, Option, none, some, List, [], ◌∷◌,
}
use glassbox_ai_quant.SystemState.{
  Guard, kill_switch_guard, drawdown_guard, daily_loss_guard, heartbeat_guard, SystemState,
}
use glassbox_ai_quant.Supervisor.{
  Client, Flattened, default_attempts, same_guard, is_standing, latch_breach, flatten_now,
  flatten_residue, on_breach,
}
use glassbox_ai_quant.Supervisor.Flatten.{Outcome, emptied, gave_up, broke_off, flatten-Outcome}

same_guard_refl : (g : Guard) → same_guard g g ≡ true
same_guard_refl kill_switch_guard = refl
same_guard_refl drawdown_guard = refl
same_guard_refl daily_loss_guard = refl
same_guard_refl heartbeat_guard = refl

module _ {W : Type 0} (client : Client W) where
  Outcome-stands :
      (g : Guard) (s : SystemState) (n : ℕ) (f : Flattened W)
      → Outcome client s n f
      → is_standing g f.state ≡ is_standing g s
  Outcome-stands g s n f (emptied used p q done found e) = ap (is_standing g) e
  Outcome-stands g s n f (gave_up done e) = ap (is_standing g) e
  Outcome-stands g s n f (broke_off c e) = ap (is_standing g) e

  flatten_stands :
      (g : Guard) (w : W) (s : SystemState)
      → is_standing g s ≡ true
      → is_standing g (flatten_now client w s).1.1 ≡ true
  flatten_stands g w s h =
      Outcome-stands g s default_attempts _ (flatten-Outcome client default_attempts w s) ∙ h

  residue_stands :
      (g : Guard) (s : SystemState) (r : W × Option (List ℕ))
      → is_standing g s ≡ true
      → is_standing g (flatten_residue client s r).1.1 ≡ true
  unfolding flatten_residue
  residue_stands g s (w, none) h = h
  residue_stands g s (w, some []) h = h
  residue_stands g s (w, some (p ∷ ps)) h = flatten_stands g w s h

  breach_stands :
      (g : Guard) (w : W) (s : SystemState)
      → is_standing g (on_breach client g false w s).1.1 ≡ true
  unfolding on_breach
  breach_stands g w s = elim (Bool-cases (is_standing g s)) [
    | inr e ↦ rw e (flatten_stands g w (latch_breach g s) (same_guard_refl g))
    | inl e ↦ rw e (residue_stands g s (client.get_all_positions w) e)
  ]

  standing_silent :
      (g : Guard) (v w' : W) (s : SystemState)
      → is_standing g s ≡ true
      → client.get_all_positions v ≡ (w', some [])
      → on_breach client g false v s ≡ (true, (w', s))
  unfolding on_breach flatten_residue
  standing_silent g v w' s h k = rw (h, k) refl

  -- A breach that was met outside a dry run, even if a call raised, is met once: if the broker answers
  -- the next time that there are no positions, then meeting the same guard again changes nothing of the
  -- store and asks the broker nothing else.
  pub breach_once :
      (g : Guard) (w w' : W) (s : SystemState)
      → client.get_all_positions (on_breach client g false w s).1.0 ≡ (w', some [])
      → let s' = (on_breach client g false w s).1.1 in
        on_breach client g false (on_breach client g false w s).1.0 s' ≡ (true, (w', s'))
  breach_once g w w' s e =
      standing_silent g (on_breach client g false w s).1.0 w' (on_breach client g false w s).1.1
        (breach_stands g w s) e
