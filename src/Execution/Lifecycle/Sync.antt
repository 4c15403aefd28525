-- ===== src/Execution/Lifecycle/Sync.antt =====
-- `sync` of glassbox/execution/lifecycle.py as a run of steps on the store, and what follows for every
-- pass.
use glassbox_ai_quant.Prelude.{
  leb, ◌==◌, if◌then◌else◌, Bool-cases, is_some, any, All, Dict, lookup, insert, lookup-insert, ℕ,
  ◌+◌, ◌<◌, ◌≡◌, refl, ap, ◌∙◌, inl, inr, Bool, true, false, ◌||◌, Option, none, some, List, [],
  ◌∷◌, arith,
}
use glassbox_ai_quant.Prelude.Decimal.{Decimal}
use glassbox_ai_quant.Clock.{Instant}
use glassbox_ai_quant.Config.{Config}
use glassbox_ai_quant.SystemState.{is_halted}
use glassbox_ai_quant.Store.Rows.{Intent, to_open, to_close, OrderStatus, canceled, expired}
use glassbox_ai_quant.Store.{Order, Position, Tables, orders_in_flight, counter}
use glassbox_ai_quant.Execution.Ids.{IdText}
use glassbox_ai_quant.Execution.Router.{
  BrokerStatus, order_filled, order_canceled, order_rejected, order_expired, order_live,
  order_other, BrokerOrder, Broker, Session, cancel,
}
use glassbox_ai_quant.Execution.Lifecycle.Escalation.{
  at_deadline, note_expiry, submit_rung, rung_at, escalate_entry, submit_worse, escalate_close,
  expire_entry, expire_close, expire_by, maybe_expire,
}
use glassbox_ai_quant.Execution.Lifecycle.{awaited, act_on, after_poll, handle, handle_all}
use glassbox_ai_quant.Execution.Lifecycle.Steps.{
  Permit, IsBounded, attempt_counted, Reach, here, Reach-trans, Reach-Step, Reach-system,
  position_rows,
}
use glassbox_ai_quant.Execution.Lifecycle.Passes.{
  submit_steps, poll_steps, cancel_steps, on_dead_steps, void_steps, on_fill_steps,
}

-- The positions that a pass over the store may permit: those with an order in flight, and those that
-- are neither on nor off.
abbrev pub is_transitional : Position → Bool
is_transitional r = is_some (awaited r.status)

unfoldable pub may_touch : Tables → ℕ → Bool
may_touch t k =
    any (λ (o : Order). k == o.position_id) (orders_in_flight t)
    || any is_transitional (position_rows k t)

module _ {W : Type 0} {permit : Permit} where
  pub if_pair_steps :
      (b : Bool) (t : Tables) (p p' : Session W × Bool)
      → Reach permit t p.0.tables
      → Reach permit t p'.0.tables
      → Reach permit t (if b then p else p').0.tables
  if_pair_steps true t p p' h k = h
  if_pair_steps false t p p' h k = k

-- What a pass may do on this store.
abbrev pub permit_of : Config → Tables → Permit
permit_of cfg t = record { allowed = may_touch t; rungs = cfg.execution.entry_ladder_steps }

counted_within : (m n k : ℕ) (d : Dict ℕ) → IsBounded m d → n < m → IsBounded m (insert k (n + 1) d)
counted_within m n k d b h j =
    rw (lookup-insert k j (n + 1) d)
      (elim (Bool-cases (j == k)) [ inl e ↦ rw e (omega (arith, h)) | inr e ↦ rw e (b j) ])

closing_opens_nothing : (halted : Bool) → to_close ≡ to_open → halted ≡ false
closing_opens_nothing halted e = absurd (ground (arith, e))

module _ {W : Type 0} (broker : Broker W) (digest : IdText → ℕ) (cfg : Config)
    {permit : Permit} where
  submit_rung_steps :
      (o : Order) (row : Position) (n : ℕ) (price : Decimal) (r : Session W × Bool)
      → n < permit.rungs
      → is_halted r.0.tables.system ≡ false
      → Reach permit r.0.tables (submit_rung broker digest cfg o row n price r).0.tables
  unfolding submit_rung
  submit_rung_steps o row n price (s, false) m h = here
  submit_rung_steps o row n price (s, true) m h =
      let sent =
        Reach-trans
          (Reach-Step (
            attempt_counted _ _
              (λ b. counted_within permit.rungs n o.position_id s.tables.entry_attempts b m) refl))
          (submit_steps broker _ _ (λ _. h)) in
      if_pair_steps _ s.tables _ _ sent sent

  rung_at_steps :
      (o : Order) (row : Position) (n : ℕ) (price : Option Decimal) (s : Session W)
      → n < permit.rungs
      → is_halted s.tables.system ≡ false
      → Reach permit s.tables (rung_at broker digest cfg o row n price s).0.tables
  rung_at_steps o row n none s m h = here
  rung_at_steps o row n (some price) s m h =
      let cancelled = cancel_steps broker {permit = permit} o.client_order_id o.alpaca_order_id s in
      Reach-trans cancelled (
        submit_rung_steps o row n price (cancel broker o.client_order_id o.alpaca_order_id s) m
          (ap is_halted (Reach-system cancelled) ∙ h))

  escalate_entry_steps :
      (o : Order) (age : Decimal) (row : Option Position) (now : Instant) (s : Session W)
      → permit.rungs ≡ cfg.execution.entry_ladder_steps
      → Reach permit s.tables (escalate_entry broker digest cfg o age row now s).0.tables
  unfolding escalate_entry
  escalate_entry_steps o age none now s n = here
  escalate_entry_steps o age (some row) now s n =
      let attempt = counter 0 (lookup o.position_id s.tables.entry_attempts) in
      let late = at_deadline cfg.manage.flatten_all_at now in
      elim (Bool-cases (is_halted s.tables.system)) [
        | inl e ↦ rw e here
        | inr e ↦ elim (Bool-cases late) [
          | inl l ↦ rw (e, l) here
          | inr l ↦ elim (Bool-cases (leb cfg.execution.entry_ladder_steps attempt)) [
            | inl m ↦ rw (e, l, m) here
            | inr m ↦
                rw (e, l, m)
                  (if_pair_steps _ s.tables (s, false) _ here
                    (rung_at_steps o row attempt _ s (ground (arith, n, m)) e))
          ]
        ]
      ]

  submit_worse_steps :
      (o : Order) (row : Position) (n : ℕ) (r : Session W × Bool)
      → Reach permit r.0.tables (submit_worse broker digest cfg o row n r).0.tables
  unfolding submit_worse
  submit_worse_steps o row n (s, false) = here
  submit_worse_steps o row n (s, true) =
      let sent =
        Reach-trans (Reach-Step (attempt_counted _ _ (λ b. b) refl))
          (submit_steps broker _ _ (closing_opens_nothing _)) in
      if_pair_steps _ s.tables _ _ sent sent

  escalate_close_steps :
      (o : Order) (row : Option Position) (s : Session W)
      → Reach permit s.tables (escalate_close broker digest cfg o row s).0.tables
  unfolding escalate_close
  escalate_close_steps o none s = here
  escalate_close_steps o (some row) s = if_pair_steps _ s.tables _ _ here (
      Reach-trans (cancel_steps broker o.client_order_id o.alpaca_order_id s)
        (submit_worse_steps o row _ _))

  note_expiry_steps :
      (c : ℕ) (r : Session W × Bool) → Reach permit r.0.tables (note_expiry c r).tables
  note_expiry_steps c (s, false) = here
  note_expiry_steps c (s, true) = here

  expire_by_steps :
      (i : Intent) (o : Order) (row : Option Position) (now : Instant) (s : Session W)
      → permit.rungs ≡ cfg.execution.entry_ladder_steps
      → Reach permit s.tables (expire_by broker digest cfg i o row now s).0.tables
  unfolding expire_entry expire_close
  expire_by_steps to_open o row now s n =
      if_pair_steps _ s.tables _ _ (escalate_entry_steps o _ row now s n) (
        Reach-trans (cancel_steps broker o.client_order_id o.alpaca_order_id s)
          (note_expiry_steps o.client_order_id _))
  expire_by_steps to_close o row now s n =
      if_pair_steps _ s.tables (s, false) _ here (escalate_close_steps o row s)

module _ {W : Type 0} (broker : Broker W) (digest : IdText → ℕ) (cfg : Config) (learns : Bool)
    {permit : Permit} where
  act_on_steps :
      (o : Order) (now : Instant) (st : BrokerStatus) (fill : Option Decimal) (s : Session W)
      → permit.rungs ≡ cfg.execution.entry_ladder_steps
      → permit.allowed o.position_id ≡ true
      → Reach permit s.tables (act_on broker digest cfg learns o now st fill s).0.tables
  unfolding act_on maybe_expire
  act_on_steps o now order_filled fill s n h = on_fill_steps broker learns o fill now s h
  act_on_steps o now order_canceled fill s n h = on_dead_steps o canceled s h
  act_on_steps o now order_rejected fill s n h = on_dead_steps o OrderStatus.rejected s h
  act_on_steps o now order_expired fill s n h = on_dead_steps o expired s h
  act_on_steps o now order_live fill s n h = expire_by_steps broker digest cfg o.intent o _ now s n
  act_on_steps o now order_other fill s n h = here

  after_poll_steps :
      (o : Order) (now : Instant) (r : Session W × Option BrokerOrder)
      → permit.rungs ≡ cfg.execution.entry_ladder_steps
      → permit.allowed o.position_id ≡ true
      → Reach permit r.0.tables (after_poll broker digest cfg learns o now r).0.tables
  unfolding after_poll
  after_poll_steps o now (s, none) n h = void_steps cfg o now _
  after_poll_steps o now (s, some b) n h = act_on_steps o now b.status b.filled_avg_price s n h

  handle_steps :
      (now : Instant) (o : Order) (s : Session W)
      → permit.rungs ≡ cfg.execution.entry_ladder_steps
      → permit.allowed o.position_id ≡ true
      → Reach permit s.tables (handle broker digest cfg learns now o s).0.tables
  unfolding handle
  handle_steps now o s n h =
      Reach-trans (poll_steps broker o.client_order_id s) (after_poll_steps o now _ n h)

  pub handle_all_steps :
      (now : Instant) (os : List Order) (s : Session W)
      → permit.rungs ≡ cfg.execution.entry_ladder_steps
      → All (λ (o : Order). permit.allowed o.position_id ≡ true) os
      → Reach permit s.tables (handle_all broker digest cfg learns now os s).0.tables
  unfolding handle_all
  handle_all_steps now [] s n h = here
  handle_all_steps now (o ∷ os) s n h =
      let first = handle_steps now o s n h.0 in
      if_pair_steps _ s.tables _ _ first (Reach-trans first (handle_all_steps now os _ n h.1))
