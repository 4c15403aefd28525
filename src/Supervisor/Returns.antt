-- ===== src/Supervisor/Returns.antt =====
-- A tick of glassbox/supervisor/run.py whose calls of the broker all return.
use glassbox_ai_quant.Prelude.{
  if◌then◌else◌, Bool-cases, is_some, ℕ, zero, suc, ◌+◌, ◌≡◌, refl, ◌≢◌, ◌⊎◌, inl, inr, Bool, true,
  false, Option, none, some, List, [], ◌∷◌, arith,
}
use glassbox_ai_quant.Prelude.Decimal.{Decimal}
use glassbox_ai_quant.Config.{Config}
use glassbox_ai_quant.SystemState.{Guard, SystemState}
use glassbox_ai_quant.Guards.{GuardAction, continue, evaluate_guards}
use glassbox_ai_quant.Supervisor.{
  Client, Flattened, Pass, read_after, after_pass, give_up, wait_and_read, close_pass, flatten_loop,
  after_cancel, flatten_all, default_attempts, TickInput, observed, guard_input, is_standing,
  latch_breach, flatten_now, flatten_residue, on_breach, respond, tick_verdict, tick,
}
use glassbox_ai_quant.Supervisor.Breach.{verdict_named, IsAnswered, AsSecured, respond_secures}

module _ {W : Type 0} (client : Client W) where
  -- Every call of the broker returns, whatever its side.
  pub record IsUp : Type 0 where
    pub cancels : (w : W) → (client.cancel_orders w).1 ≡ true
    pub closes : (w : W) → is_some (client.close_all_positions w).1 ≡ true
    pub reads : (w : W) → is_some (client.get_all_positions w).1 ≡ true

  module _ (up : IsUp) where
    read_returns :
        (n : ℕ) (r : W × Option (List ℕ)) → is_some r.1 ≡ true → is_some (read_after n r).1 ≡ true
    read_returns n (w, none) e = e
    read_returns n (w, some ps) e = refl

    wait_returns :
        (r : W × Option ℕ) → is_some r.1 ≡ true → is_some (wait_and_read client r).1 ≡ true
    wait_returns (w, none) e = e
    wait_returns (w, some n) e = read_returns n _ (up.reads (client.wait w))

    pass_returns : (w : W) → is_some (close_pass client w).1 ≡ true
    unfolding close_pass
    pass_returns w = wait_returns (client.close_all_positions w) (up.closes w)

    after_pass_completes :
        (done total : ℕ) (s : SystemState) (r : Pass W) (rest : ℕ → W → Flattened W)
        → is_some r.1 ≡ true
        → ((t : ℕ) (w : W) → (rest t w).completed ≡ true)
        → (after_pass done total s r rest).completed ≡ true
    after_pass_completes done total s (w, none) rest e f = absurd (ground (arith, e))
    after_pass_completes done total s (w, some (n, true)) rest e f = refl
    after_pass_completes done total s (w, some (n, false)) rest e f = f (total + n) w

    give_up_completes :
        (done total : ℕ) (s : SystemState) (r : W × Option (List ℕ))
        → is_some r.1 ≡ true
        → (give_up done total s r).completed ≡ true
    give_up_completes done total s (w, none) e = absurd (ground (arith, e))
    give_up_completes done total s (w, some ps) e = refl

    loop_completes :
        (left done total : ℕ) (w : W) (s : SystemState)
        → (flatten_loop client left done total w s).completed ≡ true
    unfolding flatten_loop
    loop_completes zero done total w s =
        give_up_completes done total s (client.get_all_positions w) (up.reads w)
    loop_completes (suc left) done total w s =
        after_pass_completes done total s (close_pass client w) _ (pass_returns w)
          (λ t w'. loop_completes left (suc done) t w' s)

    cancel_completes :
        (attempts : ℕ) (s : SystemState) (r : W × Bool)
        → r.1 ≡ true
        → (after_cancel client attempts s r).completed ≡ true
    cancel_completes attempts s (w, false) e = absurd (ground (arith, e))
    cancel_completes attempts s (w, true) e = loop_completes attempts 0 0 w s

    flatten_returns : (w : W) (s : SystemState) → (flatten_now client w s).0 ≡ true
    unfolding flatten_all
    flatten_returns w s =
        cancel_completes default_attempts s (client.cancel_orders w) (up.cancels w)

    residue_returns :
        (s : SystemState) (r : W × Option (List ℕ))
        → is_some r.1 ≡ true
        → (flatten_residue client s r).0 ≡ true
    unfolding flatten_residue
    residue_returns s (w, none) e = absurd (ground (arith, e))
    residue_returns s (w, some []) e = refl
    residue_returns s (w, some (p ∷ ps)) e = flatten_returns w s

    breach_returns : (g : Guard) (w : W) (s : SystemState) → (on_breach client g false w s).0 ≡ true
    unfolding on_breach
    breach_returns g w s = elim (Bool-cases (is_standing g s)) [
      | inr e ↦ rw e (flatten_returns w (latch_breach g s))
      | inl e ↦ rw e (residue_returns s (client.get_all_positions w) (up.reads w))
    ]

  respond_returns :
      (o : Option Guard) (g : Guard) (dry : Bool) (w : W) (s : SystemState)
      → IsUp
      → o ≡ some g
      → dry ≡ false
      → (respond client o dry w s).0 ≡ true
  respond_returns o g dry w s up e d = rw (e, d) (breach_returns up g w s)

  returned_action :
      (a : GuardAction) (r : Bool × (W × SystemState))
      → r.0 ≡ true
      → AsSecured client r
      → ((if r.0 then some a else none) ≡ some a) × IsAnswered client r.1.0 r.1.1
  returned_action a (false, r) e x = absurd (ground (arith, e))
  returned_action a (true, r) e x = (refl, late x.answered)
    where
      late : (true ≡ false) ⊎ IsAnswered client r.0 r.1 → IsAnswered client r.0 r.1
      late (inl c) = absurd (ground (arith, c))
      late (inr k) = k

  -- If every call of the broker returns, then a tick outside a dry run that reads the account and whose
  -- verdict on it is not to continue returns that verdict, and the broker's last answer is that there
  -- are no positions, or the newest record says that four attempts to close them all did not suffice.
  pub tick_answers :
      (t : TickInput) (cfg : Config) (w w' : W) (s : SystemState) (equity : Decimal)
      → IsUp
      → t.dry_run ≡ false
      → client.get_account w ≡ (w', some equity)
      → (tick_verdict client equity t cfg w' s).action ≢ continue
      → let r = tick client t cfg w s in
        (r.0 ≡ some (tick_verdict client equity t cfg w' s).action) × IsAnswered client r.1.0 r.1.1
  unfolding tick tick_verdict
  tick_answers t cfg w w' s equity up d a h =
      let i = guard_input equity (client.broker_peak w') t s in
      let seen = observed equity (client.broker_peak w') t s in
      let (g, named) = verdict_named i cfg h in
      rw a (
        returned_action (evaluate_guards i cfg).action
          (respond client (evaluate_guards i cfg).guard t.dry_run w' seen)
          (respond_returns (evaluate_guards i cfg).guard g t.dry_run w' seen up named d)
          (respond_secures client (evaluate_guards i cfg).guard g t.dry_run w' seen named d))
