-- ===== src/Examples/Engines.antt =====
-- A tick and a reaper's loop at concrete tables.
use pgjobq.Base.{
  Yields, order_by, insert_by, ◌<◌, ◌/◌, ℕ, ◌+◌, ◌≡◌, refl, inl, inr, String, true, Option, none,
  some, [], ◌∷◌, arith, any, where_,
}
use pgjobq.Types.{Job, CatchupPolicy}
use pgjobq.Table.{check_row, clash}
use pgjobq.Sql.Enqueue.{new_job, insert_job}
use pgjobq.Sql.Reap.{expired, count_overdue_leases}
use pgjobq.Sql.Schedule.{Schedule, DueScheduleRow, set_where, advanced_to, advance_schedule}
use pgjobq.Engine.Scheduler.{
  Planned, Tick, should_fire, occurrence_row, process_row, process_at, inserted_then,
}
use pgjobq.Engine.Scheduler.Occurrences.{occurrence_once}
use pgjobq.Engine.Reaper.{drain}
use pgjobq.Engine.Reaper.Drain.{LeftCalm, nobody_holds, drain_clears}
use pgjobq.Sql.Retention.{prunable, retain}
use pgjobq.Engine.Retention.{Archive, RetentionOptions, round}
use pgjobq.Engine.Retention.Passes.{Cleared}
use pgjobq.Engine.Retention.Passes.{nobody_holds as nobody_locks}
use pgjobq.Engine.Retention.Rounds.{round-Cleared}
use pgjobq.Sql.Schedule.{
  due, due_row, due_schedules, claim_due_schedules, enabled_to, set_schedule_enabled,
}
use pgjobq.Engine.Scheduler.Management.{get_schedule, set_enabled}
use pgjobq.Engine.Scheduler.Management.Pausing.{set_enabled_fires}
use pgjobq.Examples.{nobody, first_run, finished, one-IsValid, start}

-- A cron library that answers with the next millisecond, and a key that is always the same.
abbrev soon : String → String → ℕ → Option ℕ
soon cron timezone from = some (from + 1)

abbrev key : ℕ → ℕ → String
key id planned = "k"

abbrev nightly : DueScheduleRow
nightly = record {
  id = 1;
  name = "nightly";
  queue = "mail";
  type = "send";
  payload = "{}";
  cron = "0 2 * * *";
  timezone = "UTC";
  catchup_policy = CatchupPolicy.skip_missed;
  planned_for = 100;
}

abbrev plan : Schedule
plan = record {
  id = 1;
  name = "nightly";
  queue = "mail";
  type = "send";
  payload = "{}";
  cron = "0 2 * * *";
  timezone = "UTC";
  catchup_policy = CatchupPolicy.skip_missed;
  enabled = true;
  next_run_at = 100;
  last_run_at = none;
  last_job_id = none;
  updated_at = 0;
}

abbrev before : Planned
before = record { schedules = plan ∷ []; jobs = start.jobs }

abbrev nothing_yet : Tick
nothing_yet = record { created = 0; deduplicated = 0 }

abbrev made : Job
unfolding new_job occurrence_row
made = new_job 200 1 (occurrence_row key nightly)

abbrev moved : Schedule
moved = record plan { next_run_at = 201; last_job_id = some 1; updated_at = 200 }

abbrev fired : Planned
fired = record { schedules = moved ∷ []; jobs = record { rows = made ∷ []; next_id = 2 } }

-- The other scheduler, which still holds the row.
abbrev moved_again : Schedule
moved_again = record moved { next_run_at = 301; updated_at = 300 }

abbrev refired : Planned
refired = record { schedules = moved_again ∷ []; jobs = record { rows = made ∷ []; next_id = 3 } }

occurrence_once_example : refired.jobs.rows ≡ fired.jobs.rows
unfolding new_job occurrence_row process_row process_at should_fire inserted_then insert_job
    check_row clash any set_where advanced_to advance_schedule
occurrence_once_example =
    occurrence_once key soon soon 200 200 300 300 201 nightly before fired fired refired nothing_yet
      (record { created = 1; deduplicated = 0 }) nothing_yet
      (record { created = 0; deduplicated = 1 }) refl refl refl refl refl

drain_clears_example :
    Yields (LeftCalm 40000 1) (drain 5 nobody_holds 10 (λ n. 500) (λ n. 40000) (first_run ∷ []))
unfolding check_row count_overdue_leases expired where_
drain_clears_example =
    drain_clears 5 10 (λ n. 500) 40000 (first_run ∷ []) (one-IsValid first_run refl refl)
      (omega arith) (omega arith)

-- More than thirty days have passed since the job died, and the next month has begun.
abbrev months : ℕ → ℕ
months t = t / 2678400000

abbrev keeping : RetentionOptions
keeping = record {
  params = record {
    limit = 500;
    default_retain_succeeded = 604800000;
    default_retain_dead = 2592000000;
  };
  archive = true;
}

abbrev no_archive : Archive
no_archive = record { rows = []; months = [] }

round-Cleared_example : Yields (Cleared keeping [] 2678400001 (finished ∷ [])) (
    round months 3 keeping [] 2678399999 (λ n. 2678400001) nobody_locks (finished ∷ [], no_archive))
unfolding check_row prunable where_ retain
round-Cleared_example =
    round-Cleared months 3 keeping [] 2678399999 2678400001 (finished ∷ []) no_archive
      (one-IsValid finished refl refl) (inr refl) (omega arith) (omega arith)

-- The nightly schedule, resumed at 500: it is next due at 501.
abbrev resumed_plan : Schedule
resumed_plan = enabled_to 500 true (some 501) plan

abbrev resumed_row : DueScheduleRow
unfolding due_row
resumed_row = due_row resumed_plan

set_enabled_fires_example : (true ≡ true) × (500 < resumed_row.planned_for)
unfolding set_enabled set_schedule_enabled set_where get_schedule claim_due_schedules due_schedules
    due where_ order_by insert_by any due_row
set_enabled_fires_example =
    set_enabled_fires soon 500 500 1 true (plan ∷ []) (resumed_plan ∷ []) resumed_plan 600 10 nobody
      resumed_row refl later (inl refl) refl
  where
    later : (cron timezone : String) (from n : ℕ) → soon cron timezone from ≡ some n → from < n
    later cron timezone from n e = ground (arith, e)
