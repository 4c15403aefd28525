-- ===== src/Supervisor/Breach.antt =====
-- What a tick of glassbox/supervisor/run.py leaves of the halt, of the book and of the audit log.
use glassbox_ai_quant.Prelude.{
  if◌then◌else◌, Bool-cases, Option-cases, and-true, ℕ, ◌≡◌, refl, ap, ◌≢◌, ◌↔◌, ◌⊎◌, inl, inr,
  Bool, true, false, Option, none, some, List, [], ◌∷◌, arith,
}
use glassbox_ai_quant.Prelude.Decimal.{Decimal}
use glassbox_ai_quant.Config.{Config}
use glassbox_ai_quant.SystemState.{Guard, AuditEvent, flatten_incomplete, SystemState, is_halted}
use glassbox_ai_quant.Guards.{
  GuardAction, continue, GuardInput, evaluate_guards, stored_peak, highest_of, update_peak_equity,
  session_baseline,
}
use glassbox_ai_quant.Reconcile.{Activity, unseen, assignments_of, check_assignments}
use glassbox_ai_quant.Supervisor.{
  Client, Flattened, TickInput, watch_assignments, observed, guard_input, is_standing, latch_breach,
  flatten_now, flatten_residue, on_breach, respond, tick_verdict, with_account, tick,
}
use glassbox_ai_quant.Supervisor.Flatten.{
  FoundEmpty, Outcome, emptied, gave_up, broke_off, flatten-Outcome,
}
use glassbox_ai_quant.Prelude.Int.{ltb_ℤ}

assigned_keeps :
    (news : List Activity) (s : SystemState)
    → is_halted s ≡ true
    → is_halted (assignments_of news s).0 ≡ true
assigned_keeps [] s h = h
assigned_keeps (a ∷ news) s h = refl

watch_keeps :
    (a : Option (List Activity)) (s : SystemState)
    → is_halted s ≡ true
    → is_halted (watch_assignments a s) ≡ true
unfolding check_assignments
watch_keeps none s h = h
watch_keeps (some acts) s h = assigned_keeps (unseen s acts) s h

baseline_keeps :
    (equity : Decimal) (today : ℕ) (s : SystemState)
    → (session_baseline equity today s).1.halt_reason ≡ s.halt_reason
unfolding session_baseline
baseline_keeps equity today s = ground arith

if_keeps :
    (b : Bool) (x y : SystemState)
    → x.halt_reason ≡ y.halt_reason
    → (if b then x else y).halt_reason ≡ y.halt_reason
if_keeps true x y h = h
if_keeps false x y h = refl

peak_keeps :
    (equity : Decimal) (b : Option Decimal) (s : SystemState)
    → (update_peak_equity equity b s).1.halt_reason ≡ s.halt_reason
unfolding update_peak_equity
peak_keeps equity b s =
    if_keeps (ltb_ℤ (stored_peak s) (highest_of (stored_peak s) equity b))
      (record s { peak_equity = some (highest_of (stored_peak s) equity b) }) s refl

observed_keeps :
    (equity : Decimal) (b : Option Decimal) (t : TickInput) (s : SystemState)
    → is_halted s ≡ true
    → is_halted (observed equity b t s) ≡ true
unfolding observed
observed_keeps equity b t s h =
    rw
      (
        peak_keeps equity b (session_baseline equity t.today (watch_assignments t.activities s)).1,
        baseline_keeps equity t.today (watch_assignments t.activities s),
      )
      (watch_keeps t.activities s h)

-- A verdict goes on exactly if it names no guard.
pub unnamed_continues :
    (i : GuardInput) (cfg : Config)
    → ((evaluate_guards i cfg).guard ≡ none) ↔ ((evaluate_guards i cfg).action ≡ continue)
unfolding evaluate_guards
unnamed_continues i cfg = (λ h. ground arith, λ h. ground arith)

pub verdict_named :
    (i : GuardInput) (cfg : Config)
    → (evaluate_guards i cfg).action ≢ continue
    → (g : Guard) × ((evaluate_guards i cfg).guard ≡ some g)
verdict_named i cfg h = elim (Option-cases (evaluate_guards i cfg).guard) [
  | inl e ↦ absurd (h ((unnamed_continues i cfg).0 e))
  | inr e ↦ e
]

module _ {W : Type 0} (client : Client W) where
  Outcome-keeps :
      (s : SystemState) (n : ℕ) (f : Flattened W)
      → Outcome client s n f
      → f.state.halt_reason ≡ s.halt_reason
  Outcome-keeps s n f (emptied used p q done found e) = ap (λ t. t.halt_reason) e
  Outcome-keeps s n f (gave_up done e) = ap (λ t. t.halt_reason) e
  Outcome-keeps s n f (broke_off c e) = ap (λ t. t.halt_reason) e

  flatten_keeps :
      (w : W) (s : SystemState) → is_halted s ≡ true → is_halted (flatten_now client w s).1.1 ≡ true
  flatten_keeps w s h = rw (Outcome-keeps s 4 _ (flatten-Outcome client 4 w s)) h

  -- The broker has just answered that there are no positions, or the newest record says that four
  -- attempts did not empty the book.
  abbrev pub IsAnswered : W → SystemState → Type 0
  IsAnswered w s =
      FoundEmpty client w
      ⊎ ((total : ℕ) × ((older : List AuditEvent) × (s.audit ≡ flatten_incomplete total 4 ∷ older)))

  -- Halted, and if the calls of the broker returned, answered.
  pub record IsSecured (returned : Bool) (w : W) (s : SystemState) : Type 0 where
    pub halted : is_halted s ≡ true
    pub answered : (returned ≡ false) ⊎ IsAnswered w s

  Outcome-answers :
      (s : SystemState) (f : Flattened W)
      → Outcome client s 4 f
      → (f.completed ≡ false) ⊎ IsAnswered f.world f.state
  Outcome-answers s f (emptied used p q done found e) = inr (inl found)
  Outcome-answers s f (gave_up done e) = inr (inr (f.total_closed, (s.audit, ap (λ t. t.audit) e)))
  Outcome-answers s f (broke_off c e) = inl c

  abbrev pub AsSecured : Bool × (W × SystemState) → Type 0
  AsSecured r = IsSecured r.0 r.1.0 r.1.1

  flatten_secures :
      (w : W) (s : SystemState) → is_halted s ≡ true → AsSecured (flatten_now client w s)
  flatten_secures w s h = record {
    halted = flatten_keeps w s h;
    answered = Outcome-answers s _ (flatten-Outcome client 4 w s);
  }

  residue_secures :
      (before : W) (s : SystemState) (r : W × Option (List ℕ))
      → is_halted s ≡ true
      → client.get_all_positions before ≡ r
      → AsSecured (flatten_residue client s r)
  unfolding flatten_residue
  residue_secures before s (w, none) h e = record { halted = h; answered = inl refl }
  residue_secures before s (w, some []) h e = record {
    halted = h;
    answered = inr (inl (before, e));
  }
  residue_secures before s (w, some (p ∷ ps)) h e = flatten_secures w s h

  breach_secures : (g : Guard) (w : W) (s : SystemState) → AsSecured (on_breach client g false w s)
  unfolding on_breach
  breach_secures g w s = elim (Bool-cases (is_standing g s)) [
    | inr e ↦ rw e (flatten_secures w (latch_breach g s) refl)
    | inl e ↦ rw e (residue_secures w s (client.get_all_positions w) (and-true _ _ e).0 refl)
  ]

  pub respond_secures :
      (o : Option Guard) (g : Guard) (dry : Bool) (w : W) (s : SystemState)
      → o ≡ some g
      → dry ≡ false
      → AsSecured (respond client o dry w s)
  respond_secures o g dry w s e d = rw (e, d) (breach_secures g w s)

  secured_action :
      (a : GuardAction) (r : Bool × (W × SystemState))
      → AsSecured r
      → let o = (if r.0 then some a else none) in
        (is_halted r.1.1 ≡ true) × ((o ≡ none) ⊎ IsAnswered r.1.0 r.1.1)
  secured_action a (false, r) x = (x.halted, inl refl)
  secured_action a (true, r) x = (x.halted, late x.answered)
    where
      late : (true ≡ false) ⊎ IsAnswered r.0 r.1 → (some a ≡ none) ⊎ IsAnswered r.0 r.1
      late (inl e) = absurd (ground (arith, e))
      late (inr h) = inr h

  -- A tick outside a dry run that reads the account and whose verdict on it is not to continue ends
  -- halted, whatever the broker does; and either a call of the broker raised, and the tick with it, or
  -- the broker's last answer is that there are no positions, or the newest record says that four attempts
  -- to close them all did not suffice.
  pub tick_secures :
      (t : TickInput) (cfg : Config) (w w' : W) (s : SystemState) (equity : Decimal)
      → t.dry_run ≡ false
      → client.get_account w ≡ (w', some equity)
      → (tick_verdict client equity t cfg w' s).action ≢ continue
      → let r = tick client t cfg w s in
        (is_halted r.1.1 ≡ true) × ((r.0 ≡ none) ⊎ IsAnswered r.1.0 r.1.1)
  unfolding tick tick_verdict
  tick_secures t cfg w w' s equity d a h =
      let i = guard_input equity (client.broker_peak w') t s in
      let seen = observed equity (client.broker_peak w') t s in
      let (g, named) = verdict_named i cfg h in
      rw a (
        secured_action (evaluate_guards i cfg).action
          (respond client (evaluate_guards i cfg).guard t.dry_run w' seen)
          (respond_secures (evaluate_guards i cfg).guard g t.dry_run w' seen named d))

  breach_halts :
      (g : Guard) (dry : Bool) (w : W) (s : SystemState)
      → is_halted (on_breach client g dry w s).1.1 ≡ true
  unfolding on_breach
  breach_halts g false w s = (breach_secures g w s).halted
  breach_halts g true w s = elim (Bool-cases (is_standing g s)) [
    | inl e ↦ rw e (and-true _ _ e).0
    | inr e ↦ rw e refl
  ]

  respond_keeps :
      (o : Option Guard) (dry : Bool) (w : W) (s : SystemState)
      → is_halted s ≡ true
      → is_halted (respond client o dry w s).1.1 ≡ true
  respond_keeps none dry w s h = h
  respond_keeps (some g) dry w s h = breach_halts g dry w s

  account_keeps :
      (t : TickInput) (cfg : Config) (s : SystemState) (r : W × Option Decimal)
      → is_halted s ≡ true
      → is_halted (with_account client t cfg s r).1.1 ≡ true
  account_keeps t cfg s (w, none) h = h
  account_keeps t cfg s (w, some equity) h =
      respond_keeps (tick_verdict client equity t cfg w s).guard t.dry_run w _
        (observed_keeps equity (client.broker_peak w) t s h)

  -- A tick never clears a halt, whatever it finds, one that raises and a dry run included.
  pub tick_keeps_halt :
      (t : TickInput) (cfg : Config) (w : W) (s : SystemState)
      → is_halted s ≡ true
      → is_halted (tick client t cfg w s).1.1 ≡ true
  unfolding tick
  tick_keeps_halt t cfg w s h = account_keeps t cfg s (client.get_account w) h
