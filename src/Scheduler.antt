-- ===== src/Scheduler.antt =====
-- glassbox/scheduler.py: the jobs of the day. What a job does is an argument; a job that raises has no
-- exit code. The store's rows of the last runs and the audit log's events are passed on.
use glassbox_ai_quant.Prelude.{
  leb, ◌==◌, keep_if, Dict, lookup, insert, ℕ, ◌+◌, ◌*◌, ◌%◌, Bool, true, false, not, ◌&&◌, Option,
  none, some, List, [], ◌∷◌, map,
}
pub mod Once

pub record Job : Type 0 where
  pub name : ℕ
  pub hour : ℕ
  pub minute : ℕ
  pub weekdays_only : Bool

-- An instant of the market's time zone: the ordinal of the date, and the microseconds since midnight.
pub record MarketTime : Type 0 where
  pub day : ℕ
  pub time : ℕ

-- `Job.due_at`, as a time of its day
unfoldable pub due_at : Job → ℕ
due_at j = (j.hour * 60 + j.minute) * 60000000

-- `date.weekday`, by the ordinal of the date; 0 is a Monday.
unfoldable pub weekday : ℕ → ℕ
weekday day = (day + 6) % 7

pub data JobEvent : Type 0 where
  job_start : ℕ → JobEvent
  job_error : ℕ → JobEvent
  job_done : ℕ → ℕ → JobEvent

-- The day of each job's last run, and the events, newest first.
pub record JobLog : Type 0 where
  pub last_run : Dict ℕ
  pub events : List JobEvent

abbrev pub is_day : ℕ → Option ℕ → Bool
is_day day none = false
is_day day (some d) = d == day

-- `already_ran`
unfoldable pub already_ran : JobLog → Job → ℕ → Bool
already_ran s job day = is_day day (lookup job.name s.last_run)

-- `mark_ran`
unfoldable pub mark_ran : Job → ℕ → JobLog → JobLog
mark_ran job day s = record s { last_run = insert job.name day s.last_run }

abbrev pub note : JobEvent → JobLog → JobLog
note e s = record s { events = e ∷ s.events }

unfoldable pub is_due : JobLog → MarketTime → Job → Bool
is_due s now job =
    not (job.weekdays_only && leb 5 (weekday now.day))
    && leb (due_at job) now.time
    && not (already_ran s job now.day)

-- `due_jobs`
unfoldable pub due_jobs : JobLog → MarketTime → List Job → List Job
due_jobs s now jobs = keep_if (is_due s now) jobs

-- The exit code of a run, 1 where it raised, with the event of that.
abbrev pub after_run : Job → Option ℕ → JobLog → JobLog × ℕ
after_run job (some exit_code) s = (s, exit_code)
after_run job none s = (note (job_error job.name) s, 1)

-- The body of the loop of `tick`.
unfoldable pub run_job : (Job → Option ℕ) → MarketTime → Job → JobLog → JobLog
run_job run now job s =
    let (ran, exit_code) = after_run job (run job) (note (job_start job.name) s) in
    note (job_done job.name exit_code) (mark_ran job now.day ran)

unfoldable pub run_jobs : (Job → Option ℕ) → MarketTime → List Job → JobLog → JobLog
run_jobs run now [] s = s
run_jobs run now (j ∷ js) s = run_jobs run now js (run_job run now j s)

-- `tick`, with the names of the jobs that ran
unfoldable pub tick : (Job → Option ℕ) → MarketTime → List Job → JobLog → JobLog × List ℕ
tick run now jobs s =
    let due = due_jobs s now jobs in (run_jobs run now due s, map (λ (j : Job). j.name) due)

-- `JOBS`, with numbers for the names
abbrev pub default_jobs : List Job
default_jobs =
    record { name = 0; hour = 16; minute = 10; weekdays_only = true }
    ∷ record { name = 1; hour = 16; minute = 15; weekdays_only = true }
    ∷ record { name = 2; hour = 16; minute = 25; weekdays_only = true }
    ∷ []
