-- ===== src/Supervisor.antt =====
-- glassbox/supervisor/run.py: the flatten and the supervisor's tick. The broker's client is a
-- parameter, over a world that it changes, and each of its calls may raise, which ends the flatten and
-- the tick. The prints are left out, and of the audit records the kind, the guard and the counts are
-- kept.
use glassbox_ai_quant.Prelude.{
  if◌then◌else◌, ℕ, zero, suc, ◌+◌, Bool, true, false, ◌&&◌, Option, none, some, List,
}
use glassbox_ai_quant.Prelude.Int.{pos, ◌-ℤ◌}
use glassbox_ai_quant.Prelude.Decimal.{Decimal}
use glassbox_ai_quant.Clock.{Instant}
use glassbox_ai_quant.Config.{Config}
use glassbox_ai_quant.SystemState.{
  Guard, kill_switch_guard, drawdown_guard, daily_loss_guard, heartbeat_guard, from_supervisor,
  breached, guard_breach, flatten, flatten_incomplete, activity_check_error, SystemState, is_halted,
  append,
}
use glassbox_ai_quant.Guards.{
  GuardAction, GuardVerdict, GuardInput, evaluate_guards, update_peak_equity, session_baseline,
}
use glassbox_ai_quant.Reconcile.{is_empty, Activity, check_assignments}
pub mod Flatten
pub mod Breach
pub mod Returns
pub mod Once

-- The broker as the supervisor calls it. `W` is whatever the broker's side is; a call changes it and
-- returns something, or raises, for which nothing stands. `broker_peak_equity` catches what the broker
-- raises; `wait` is `time.sleep`, during which the broker works on.
pub record Client (W : Type 0) : Type 0 where
  pub get_account : W → W × Option Decimal  -- the equity
  pub broker_peak : W → Option Decimal
  pub cancel_orders : W → W × Bool  -- whether it returns
  pub close_all_positions : W → W × Option ℕ  -- how many orders it placed
  pub get_all_positions : W → W × Option (List ℕ)
  pub wait : W → W

-- How a flatten ended: whether it returned or raised, what it returns, the broker's side and the store.
pub record Flattened (W : Type 0) : Type 0 where
  pub completed : Bool
  pub total_closed : ℕ
  pub world : W
  pub state : SystemState

-- A pass: nothing where a call raised, else how many orders it placed and whether no position remains.
abbrev pub Pass : Type 0 → Type 0
Pass W = W × Option (ℕ × Bool)

module _ {W : Type 0} where
  abbrev pub raised : ℕ → W → SystemState → Flattened W
  raised total w s = record { completed = false; total_closed = total; world = w; state = s }

  abbrev pub read_after : ℕ → W × Option (List ℕ) → Pass W
  read_after n (w, none) = (w, none)
  read_after n (w, some ps) = (w, some (n, is_empty ps))

  -- What `flatten_all` does after a pass; `rest` is the rest of the loop.
  abbrev pub after_pass : ℕ → ℕ → SystemState → Pass W → (ℕ → W → Flattened W) → Flattened W
  after_pass done total s (w, none) rest = raised total w s
  after_pass done total s (w, some (n, true)) rest = record {
    completed = true;
    total_closed = total + n;
    world = w;
    state = append (flatten (total + n) (suc done)) s;
  }
  after_pass done total s (w, some (n, false)) rest = rest (total + n) w

  -- What `flatten_all` does after its loop, with what it reads as left over.
  abbrev pub give_up : ℕ → ℕ → SystemState → W × Option (List ℕ) → Flattened W
  give_up done total s (w, none) = raised total w s
  give_up done total s (w, some leftovers) = record {
    completed = true;
    total_closed = total;
    world = w;
    state = append (flatten_incomplete total done) s;
  }

module _ {W : Type 0} (client : Client W) where
  abbrev pub wait_and_read : W × Option ℕ → Pass W
  wait_and_read (w, none) = (w, none)
  wait_and_read (w, some n) = read_after n (client.get_all_positions (client.wait w))

  -- One pass: close everything, wait, then read what remains.
  unfoldable pub close_pass : W → Pass W
  close_pass w = wait_and_read (client.close_all_positions w)

  -- The loop of `flatten_all`, with `left` attempts to go and `done` behind it.
  unfoldable pub flatten_loop : ℕ → ℕ → ℕ → W → SystemState → Flattened W
  flatten_loop zero done total w s = give_up done total s (client.get_all_positions w)
  flatten_loop (suc left) done total w s =
      after_pass done total s (close_pass w) (λ t w'. flatten_loop left (suc done) t w' s)

  abbrev pub after_cancel : ℕ → SystemState → W × Bool → Flattened W
  after_cancel attempts s (w, false) = raised 0 w s
  after_cancel attempts s (w, true) = flatten_loop attempts 0 0 w s

  -- `flatten_all`
  unfoldable pub flatten_all : ℕ → W → SystemState → Flattened W
  flatten_all attempts w s = after_cancel attempts s (client.cancel_orders w)

-- `attempts: int = 4`
abbrev pub default_attempts : ℕ
default_attempts = 4

-- What a tick reads, besides the broker, the store and the configuration. The activities are `none`
-- where the feed raised.
pub record TickInput : Type 0 where
  pub activities : Option (List Activity)
  pub today : ℕ
  pub now : Instant
  pub kill_switch : Bool
  pub heartbeat_timeout : Decimal
  pub dry_run : Bool

-- `heartbeat_age`, in seconds: an instant counts microseconds and a decimal millionths.
abbrev pub heartbeat_age : SystemState → Instant → Decimal
heartbeat_age s now = elim s.trader_heartbeat [ none ↦ pos 0 | some t ↦ now -ℤ t ]

abbrev pub watch_assignments : Option (List Activity) → SystemState → SystemState
watch_assignments none s = append activity_check_error s
watch_assignments (some acts) s = (check_assignments acts s).0

-- The state once the assignments, the day's baseline and the peak are brought up to date.
unfoldable pub observed : Decimal → Option Decimal → TickInput → SystemState → SystemState
observed equity broker_peak t s =
    let watched = watch_assignments t.activities s in
    (update_peak_equity equity broker_peak (session_baseline equity t.today watched).1).1

unfoldable pub guard_input : Decimal → Option Decimal → TickInput → SystemState → GuardInput
guard_input equity broker_peak t s =
    let based = session_baseline equity t.today (watch_assignments t.activities s) in
    let peaked = update_peak_equity equity broker_peak based.1 in
    record {
      equity = equity;
      session_start_equity = based.0;
      peak_equity = peaked.0;
      kill_switch = t.kill_switch;
      heartbeat_age_seconds = heartbeat_age peaked.1 t.now;
      heartbeat_timeout = t.heartbeat_timeout;
    }

abbrev pub same_guard : Guard → Guard → Bool
same_guard kill_switch_guard kill_switch_guard = true
same_guard drawdown_guard drawdown_guard = true
same_guard daily_loss_guard daily_loss_guard = true
same_guard heartbeat_guard heartbeat_guard = true
same_guard _ _ = false

-- `standing and store.get_state(HALT_GUARD_KEY) == verdict.guard`
abbrev pub is_standing : Guard → SystemState → Bool
is_standing g s = is_halted s && elim s.halt_guard [ none ↦ false | some h ↦ same_guard h g ]

-- The store after a new breach is recorded and the halt is latched.
abbrev pub latch_breach : Guard → SystemState → SystemState
latch_breach g s = record (append (guard_breach g) s) {
  halt_reason = some (breached g);
  halt_source = some from_supervisor;
  halt_guard = some g;
}

module _ {W : Type 0} (client : Client W) where
  -- Whether the call returned, the broker's side and the store.
  abbrev pub flatten_now : W → SystemState → Bool × (W × SystemState)
  flatten_now w s =
      let f = flatten_all client default_attempts w s in (f.completed, (f.world, f.state))

  -- The residue under a standing halt, and what is done about it.
  unfoldable pub flatten_residue : SystemState → W × Option (List ℕ) → Bool × (W × SystemState)
  flatten_residue s (w, none) = (false, (w, s))
  flatten_residue s (w, some ps) = if is_empty ps then (true, (w, s)) else flatten_now w s

  -- The part of `tick` after a verdict that is not CONTINUE.
  unfoldable pub on_breach : Guard → Bool → W → SystemState → Bool × (W × SystemState)
  on_breach g dry_run w s =
      if is_standing g s
      then if dry_run then (true, (w, s)) else flatten_residue s (client.get_all_positions w)
      else if dry_run
      then (true, (w, latch_breach g s))
      else flatten_now w (latch_breach g s)

  -- CONTINUE names no guard and returns at once; every other verdict names one.
  abbrev pub respond : Option Guard → Bool → W → SystemState → Bool × (W × SystemState)
  respond none dry_run w s = (true, (w, s))
  respond (some g) dry_run w s = on_breach g dry_run w s

  -- The verdict on an equity that the account has.
  unfoldable pub tick_verdict : Decimal → TickInput → Config → W → SystemState → GuardVerdict
  tick_verdict equity t cfg w s =
      evaluate_guards (guard_input equity (client.broker_peak w) t s) cfg

  -- What `tick` does once it has asked for the account; no action stands for what is raised.
  abbrev pub with_account :
      TickInput → Config → SystemState → W × Option Decimal → Option GuardAction × (W × SystemState)
  with_account t cfg s (w, none) = (none, (w, s))
  with_account t cfg s (w, some equity) =
      let v = tick_verdict equity t cfg w s in
      let r = respond v.guard t.dry_run w (observed equity (client.broker_peak w) t s) in
      (if r.0 then some v.action else none, r.1)

  -- `tick`
  unfoldable pub tick :
      TickInput → Config → W → SystemState → Option GuardAction × (W × SystemState)
  tick t cfg w s = with_account t cfg s (client.get_account w)
