-- ===== src/Scheduler/Once.antt =====
-- Each job of glassbox/scheduler.py runs at most once on a day.
use glassbox_ai_quant.Prelude.{
  ◌==◌, if◌then◌else◌, Bool-cases, keep_if, All, contains, lookup, lookup-insert, ℕ, ◌≡◌, refl, sym,
  inl, inr, true, false, ◌||◌, Option, none, some, List, [], ◌∷◌, ◌++◌, map, arith,
}
use glassbox_ai_quant.Scheduler.{
  Job, MarketTime, job_start, JobLog, already_ran, mark_ran, note, is_due, due_jobs, after_run,
  run_job, run_jobs, tick,
}

-- A job's last run was on this day.
abbrev pub IsMarked : ℕ → ℕ → JobLog → Type 0
IsMarked n day s = lookup n s.last_run ≡ some day

after_run_keeps :
    (j : Job) (ended : Option ℕ) (s : JobLog) → (after_run j ended s).0.last_run ≡ s.last_run
after_run_keeps j none s = refl
after_run_keeps j (some c) s = refl

lookup_run :
    (run : Job → Option ℕ) (now : MarketTime) (j : Job) (s : JobLog) (n : ℕ)
    → lookup n (run_job run now j s).last_run
      ≡ (if n == j.name then some now.day else lookup n s.last_run)
unfolding run_job mark_ran
lookup_run run now j s n =
    rw (after_run_keeps j (run j) (note (job_start j.name) s))
      (lookup-insert j.name n now.day s.last_run)

run_job-IsMarked :
    (run : Job → Option ℕ) (now : MarketTime) (j : Job) (s : JobLog) (n : ℕ)
    → IsMarked n now.day s
    → IsMarked n now.day (run_job run now j s)
run_job-IsMarked run now j s n h = rw (lookup_run run now j s n, h) (ground arith)

run_jobs-IsMarked :
    (run : Job → Option ℕ) (now : MarketTime) (js : List Job) (s : JobLog) (n : ℕ)
    → IsMarked n now.day s
    → IsMarked n now.day (run_jobs run now js s)
unfolding run_jobs
run_jobs-IsMarked run now [] s n h = h
run_jobs-IsMarked run now (j ∷ js) s n h =
    run_jobs-IsMarked run now js (run_job run now j s) n (run_job-IsMarked run now j s n h)

abbrev names_of : List Job → List ℕ
names_of js = map (λ (j : Job). j.name) js

ran-IsMarked :
    (run : Job → Option ℕ) (now : MarketTime) (js : List Job) (s : JobLog) (n : ℕ)
    → contains n (names_of js) ≡ true
    → IsMarked n now.day (run_jobs run now js s)
unfolding run_jobs
ran-IsMarked run now [] s n h = absurd (ground (arith, h))
ran-IsMarked run now (j ∷ js) s n h = elim (Bool-cases (n == j.name)) [
  | inl q ↦
      run_jobs-IsMarked run now js (run_job run now j s) n (rw (lookup_run run now j s n, q) refl)
  | inr q ↦ ran-IsMarked run now js (run_job run now j s) n (ground (arith, h, q))
]

due_unmarked :
    (now : MarketTime) (s : JobLog) (n : ℕ) (j : Job)
    → IsMarked n now.day s
    → is_due s now j ≡ true
    → (n == j.name) ≡ false
unfolding is_due already_ran
due_unmarked now s n j h due = elim (Bool-cases (n == j.name)) [
  | inl q ↦
      let same : n ≡ j.name = ground (arith, q) in
      let marked : lookup j.name s.last_run ≡ some now.day = rw (sym same) h in
      absurd (ground (arith, rw marked at due))
  | inr q ↦ q
]

IsMarked-not_due :
    (now : MarketTime) (s : JobLog) (n : ℕ) (js : List Job)
    → IsMarked n now.day s
    → contains n (names_of (keep_if (is_due s now) js)) ≡ false
IsMarked-not_due now s n [] h = refl
IsMarked-not_due now s n (j ∷ js) h = elim (Bool-cases (is_due s now j)) [
  | inl q ↦ rw (q, due_unmarked now s n j h q) (IsMarked-not_due now s n js h)
  | inr q ↦ rw q (IsMarked-not_due now s n js h)
]

-- A tick: its time, and how its jobs end.
abbrev pub Tick : Type 0
Tick = MarketTime × (Job → Option ℕ)

-- The names of all jobs that a series of ticks runs, and the log after it.
unfoldable pub tick_all : List Job → List Tick → JobLog → JobLog × List ℕ
tick_all jobs [] s = (s, [])
tick_all jobs ((now, run) ∷ ticks) s =
    let (after, ran) = tick run now jobs s in
    let (last, later) = tick_all jobs ticks after in (last, ran ++ later)

contains-append :
    (n : ℕ) (xs ys : List ℕ) → contains n (xs ++ ys) ≡ (contains n xs || contains n ys)
contains-append n [] ys = refl
contains-append n (x ∷ xs) ys = rw (contains-append n xs ys) (ground arith)

IsMarked-not_ran :
    (jobs : List Job) (day n : ℕ) (ticks : List Tick) (s : JobLog)
    → All (λ (t : Tick). t.0.day ≡ day) ticks
    → IsMarked n day s
    → contains n (tick_all jobs ticks s).1 ≡ false
unfolding tick_all tick due_jobs
IsMarked-not_ran jobs day n [] s h m = refl
IsMarked-not_ran jobs day n ((now, run) ∷ ticks) s h m =
    let m' : IsMarked n now.day s = rw h.0 m in
    let due = keep_if (is_due s now) jobs in
    let after = run_jobs run now due s in
    rw
      (
        contains-append n (names_of due) (tick_all jobs ticks after).1,
        IsMarked-not_due now s n jobs m',
      )
      (IsMarked-not_ran jobs day n ticks after h.1
        (rw (sym h.0) (run_jobs-IsMarked run now due s n m')))

-- A job runs at most once on a day: a job that one tick has run, whether it failed or not, is run by no
-- later tick of the day, however many of them there are and whatever their times.
pub ran_once :
    (jobs : List Job) (run : Job → Option ℕ) (now : MarketTime) (s : JobLog) (n : ℕ)
    (ticks : List Tick)
    → contains n (tick run now jobs s).1 ≡ true
    → All (λ (t : Tick). t.0.day ≡ now.day) ticks
    → contains n (tick_all jobs ticks (tick run now jobs s).0).1 ≡ false
unfolding tick due_jobs
ran_once jobs run now s n ticks h same =
    IsMarked-not_ran jobs now.day n ticks _ same (ran-IsMarked run now (due_jobs s now jobs) s n h)
