-- ===== src/Supervisor/Flatten.antt =====
-- How `flatten_all` of glassbox/supervisor/run.py ends.
use glassbox_ai_quant.Prelude.{
  ℕ, zero, suc, ◌+◌, ◌≤◌, ◌<◌, ◌≡◌, refl, sym, ap, Bool, true, false, Option, none, some, List, [],
  ◌∷◌, arith,
}
use glassbox_ai_quant.SystemState.{flatten, flatten_incomplete, SystemState, append}
use glassbox_ai_quant.Supervisor.{
  Client, Flattened, Pass, read_after, after_pass, give_up, wait_and_read, close_pass, flatten_loop,
  after_cancel, flatten_all,
}

module _ {W : Type 0} where
  -- What the open orders' cancellation leaves, as a pass that placed no orders.
  abbrev pub started : W × Bool → Pass W
  started (w, false) = (w, none)
  started (w, true) = (w, some (0, false))

  -- The pass returned and found no position.
  abbrev pub says_empty : Pass W → Bool
  says_empty (w, none) = false
  says_empty (w, some (n, b)) = b

module _ {W : Type 0} (client : Client W) where
  -- The broker has just answered that there are no positions.
  abbrev pub FoundEmpty : W → Type 0
  FoundEmpty w = (before : W) × (client.get_all_positions before ≡ (w, some []))

  -- A pass that says that no position remains has it from the broker.
  abbrev ReadsEmpty : Pass W → Type 0
  ReadsEmpty (w, some (n, true)) = FoundEmpty w
  ReadsEmpty _ = Unit

  read_lem :
      (before : W) (n : ℕ) (r : W × Option (List ℕ))
      → client.get_all_positions before ≡ r
      → ReadsEmpty (read_after n r)
  read_lem before n (w, none) e = tt
  read_lem before n (w, some []) e = (before, e)
  read_lem before n (w, some (p ∷ ps)) e = tt

  wait_lem : (r : W × Option ℕ) → ReadsEmpty (wait_and_read client r)
  wait_lem (w, none) = tt
  wait_lem (w, some n) = read_lem (client.wait w) n _ refl

  close_pass-ReadsEmpty : (w : W) → ReadsEmpty (close_pass client w)
  unfolding close_pass
  close_pass-ReadsEmpty w = wait_lem (client.close_all_positions w)

  -- How a flatten of at most `n` attempts ends: with an empty book and its record, with the record that
  -- says that it is not empty, or by a call that raises, and then with no record.
  pub data Outcome (s : SystemState) (n : ℕ) (f : Flattened W) : Type 0 where
    emptied :
        (used : ℕ)
        → 0 < used
        → used ≤ n
        → f.completed ≡ true
        → FoundEmpty f.world
        → f.state ≡ append (flatten f.total_closed used) s
        → Outcome s n f
    gave_up :
        f.completed ≡ true
        → f.state ≡ append (flatten_incomplete f.total_closed n) s
        → Outcome s n f
    broke_off : f.completed ≡ false → f.state ≡ s → Outcome s n f

  after_pass-Outcome :
      (n done total : ℕ) (s : SystemState) (r : Pass W) (rest : ℕ → W → Flattened W)
      → ReadsEmpty r
      → suc done ≤ n
      → ((t : ℕ) (w : W) → Outcome s n (rest t w))
      → Outcome s n (after_pass done total s r rest)
  after_pass-Outcome n done total s (w, none) rest e h k = broke_off refl refl
  after_pass-Outcome n done total s (w, some (m, true)) rest e h k =
      emptied (suc done) (omega arith) h refl e refl
  after_pass-Outcome n done total s (w, some (m, false)) rest e h k = k (total + m) w

  give_up-Outcome :
      (n done total : ℕ) (s : SystemState) (r : W × Option (List ℕ))
      → n ≡ done
      → Outcome s n (give_up done total s r)
  give_up-Outcome n done total s (w, none) e = broke_off refl refl
  give_up-Outcome n done total s (w, some ps) e =
      gave_up refl (ap (λ m. append (flatten_incomplete total m) s) (sym e))

  loop-Outcome :
      (n left done total : ℕ) (w : W) (s : SystemState)
      → n ≡ left + done
      → Outcome s n (flatten_loop client left done total w s)
  unfolding flatten_loop
  loop-Outcome n zero done total w s e =
      give_up-Outcome n done total s (client.get_all_positions w) (omega arith)
  loop-Outcome n (suc left) done total w s e =
      after_pass-Outcome n done total s (close_pass client w) _ (close_pass-ReadsEmpty w)
        (omega arith) (λ t w'. loop-Outcome n left (suc done) t w' s (omega arith))

  cancel-Outcome :
      (attempts : ℕ) (s : SystemState) (r : W × Bool)
      → Outcome s attempts (after_cancel client attempts s r)
  cancel-Outcome attempts s (w, false) = broke_off refl refl
  cancel-Outcome attempts s (w, true) = loop-Outcome attempts attempts 0 0 w s (omega arith)

  -- `flatten_all` appends one record at most and changes nothing else of the store: a `flatten` record
  -- of no more attempts than allowed, if the broker's last answer is an empty book, a
  -- `flatten_incomplete` record of all the attempts, or none if a call raises.
  pub flatten-Outcome :
      (attempts : ℕ) (w : W) (s : SystemState)
      → Outcome s attempts (flatten_all client attempts w s)
  unfolding flatten_all
  flatten-Outcome attempts w s = cancel-Outcome attempts s (client.cancel_orders w)

  -- A pass after another one that did not raise.
  abbrev pub then_pass : Pass W → Pass W
  then_pass (w, none) = (w, none)
  then_pass (w, some r) = close_pass client w

  unfoldable pub passes : ℕ → Pass W → Pass W
  passes zero r = r
  passes (suc n) r = passes n (then_pass r)

  passes-none : (k : ℕ) (w : W) → says_empty (passes k (w, none)) ≡ false
  unfolding passes
  passes-none zero w = refl
  passes-none (suc k) w = passes-none k w

  -- The flatten returned, and the broker's last answer was an empty book.
  abbrev pub IsDrained : Flattened W → Type 0
  IsDrained f = (f.completed ≡ true) × FoundEmpty f.world

  after_pass-IsDrained :
      (done total k : ℕ) (s : SystemState) (r : Pass W) (rest : ℕ → W → Flattened W)
      → ReadsEmpty r
      → says_empty (passes k r) ≡ true
      → ((j : ℕ) (t : ℕ) (w : W)
          → j < k
          → says_empty (passes j (close_pass client w)) ≡ true
          → IsDrained (rest t w))
      → IsDrained (after_pass done total s r rest)
  unfolding passes
  after_pass-IsDrained done total k s (w, none) rest e h f =
      absurd (ground (arith, h, passes-none k w))
  after_pass-IsDrained done total k s (w, some (m, true)) rest e h f = (refl, e)
  after_pass-IsDrained done total zero s (w, some (m, false)) rest e h f =
      absurd (ground (arith, h))
  after_pass-IsDrained done total (suc k) s (w, some (m, false)) rest e h f =
      f k (total + m) w (omega arith) h

  loop-IsDrained :
      (left done total k : ℕ) (w : W) (s : SystemState)
      → k < left
      → says_empty (passes k (close_pass client w)) ≡ true
      → IsDrained (flatten_loop client left done total w s)
  unfolding flatten_loop
  loop-IsDrained zero done total k w s a h = absurd (omega (arith, a))
  loop-IsDrained (suc left) done total k w s a h =
      after_pass-IsDrained done total k s (close_pass client w) _ (close_pass-ReadsEmpty w) h
        (λ j t w' b g. loop-IsDrained left (suc done) t j w' s (omega (arith, a, b)) g)

  cancel-IsDrained :
      (attempts k : ℕ) (s : SystemState) (r : W × Bool)
      → 0 < k
      → k ≤ attempts
      → says_empty (passes k (started r)) ≡ true
      → IsDrained (after_cancel client attempts s r)
  unfolding passes
  cancel-IsDrained attempts k s (w, false) p a h = absurd (ground (arith, h, passes-none k w))
  cancel-IsDrained attempts zero s (w, true) p a h = absurd (omega (arith, p))
  cancel-IsDrained attempts (suc k) s (w, true) p a h =
      loop-IsDrained attempts 0 0 k w s (omega (arith, a)) h

  -- If some pass, from the first to the last that the attempts allow, counted from the state in which
  -- the open orders are cancelled, finds the book empty, with no call raising up to it, then
  -- `flatten_all` returns, and the broker's last answer is an empty book.
  pub flatten_drains :
      (attempts k : ℕ) (w : W) (s : SystemState)
      → 0 < k
      → k ≤ attempts
      → says_empty (passes k (started (client.cancel_orders w))) ≡ true
      → IsDrained (flatten_all client attempts w s)
  unfolding flatten_all
  flatten_drains attempts k w s p a h = cancel-IsDrained attempts k s (client.cancel_orders w) p a h
