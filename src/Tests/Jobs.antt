-- ===== src/Tests/Jobs.antt =====
-- Runs of glassbox/scheduler.py.
use glassbox_ai_quant.Prelude.{
  contains, ℕ, ◌*◌, ◌≡◌, refl, true, false, Option, none, some, [], ◌∷◌,
}
use glassbox_ai_quant.Scheduler.{
  Job, MarketTime, due_at, weekday, JobLog, already_ran, mark_ran, is_due, due_jobs, run_job,
  run_jobs, tick, default_jobs,
}
use glassbox_ai_quant.Scheduler.Once.{tick_all, ran_once}

-- Minutes after midnight of a Monday.
abbrev monday : ℕ → MarketTime
monday minutes = record { day = 8; time = minutes * 60000000 }

abbrev no_runs : JobLog
no_runs = record { last_run = []; events = [] }

-- Every job raises.
abbrev raising : Job → Option ℕ
raising j = none

abbrev ends_well : Job → Option ℕ
ends_well j = some 0

-- At 16:12 the first job is due.
first_runs : (tick raising (monday 972) default_jobs no_runs).1 ≡ 0 ∷ []
unfolding tick due_jobs is_due due_at weekday already_ran
first_runs = refl

first_contained : contains 0 (tick raising (monday 972) default_jobs no_runs).1 ≡ true
unfolding tick due_jobs is_due due_at weekday already_ran
first_contained = refl

rest_run :
    (tick_all default_jobs
      ((monday 980, ends_well) ∷ (monday 990, ends_well) ∷ [])
      (tick raising (monday 972) default_jobs no_runs).0).1
    ≡ 1 ∷ 2 ∷ []
unfolding tick_all tick run_jobs run_job mark_ran due_jobs is_due due_at weekday already_ran
rest_run = refl

-- The fifth day after a Monday is a Saturday.
none_on_saturday : due_jobs no_runs (record { day = 13; time = 59400000000 }) default_jobs ≡ []
unfolding due_jobs is_due due_at weekday already_ran
none_on_saturday = refl

ran_once_example :
    contains 0
      (tick_all default_jobs
        ((monday 980, ends_well) ∷ (monday 990, ends_well) ∷ [])
        (tick raising (monday 972) default_jobs no_runs).0).1
    ≡ false
ran_once_example =
    ran_once default_jobs raising (monday 972) no_runs 0
      ((monday 980, ends_well) ∷ (monday 990, ends_well) ∷ []) first_contained (refl, (refl, tt))
