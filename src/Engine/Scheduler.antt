-- ===== src/Engine/Scheduler.antt =====
-- packages/core/src/engine/scheduler.ts: a tick turns due occurrences into jobs.
pub mod Management
pub mod Occurrences
pub mod Progress
use pgjobq.Base.{
  ℕ, ◌+◌, ◌-◌, ◌==◌, String, Bool, true, false, ◌&&◌, not, Option, none, some, List, [], ◌∷◌, ltb,
  if◌then◌else◌,
}
use pgjobq.Base.Int.{pos}
use pgjobq.Types.{CatchupPolicy}
use pgjobq.Table.{Result, ok, err}
use pgjobq.Sql.Enqueue.{EnqueueRow, Jobs, insert_job}
use pgjobq.Sql.Schedule.{
  Schedule, DueScheduleRow, claim_due_schedules, advance_schedule, set_schedule_enabled,
}

-- The two tables.
pub record Planned : Type 0 where
  pub schedules : List Schedule
  pub jobs : Jobs

-- What a tick has counted.
pub record Tick : Type 0 where
  pub created : ℕ
  pub deduplicated : ℕ

abbrev skips_missed : CatchupPolicy → Bool
skips_missed CatchupPolicy.skip_missed = true
skips_missed CatchupPolicy.run_once = false

-- `shouldFire`; `now - planned_for` stops at 0 here, and is then not above the hour in the source either.
unfoldable pub should_fire : DueScheduleRow → ℕ → Bool
should_fire row now = not (skips_missed row.catchup_policy && ltb 3600000 (now - row.planned_for))

-- The row that an occurrence is inserted as, under its key.
unfoldable pub occurrence_row : (ℕ → ℕ → String) → DueScheduleRow → EnqueueRow
occurrence_row occurrence_key row = record {
  queue = row.queue;
  type = row.type;
  payload = row.payload;
  metadata = none;
  priority = pos 0;
  max_attempts = 5;
  lease_seconds = 30;
  run_at = none;
  idempotency_key = some (occurrence_key row.id row.planned_for);
  unique_key = none;
  trace_context = none;
  schedule_id = some row.id;
}

abbrev pub counted : Option ℕ → Tick → Tick
counted none k = record k { deduplicated = k.deduplicated + 1 }
counted (some id) k = record k { created = k.created + 1 }

-- After the insertion: the schedule is advanced. An insertion that fails ends the tick.
unfoldable pub inserted_then :
    ℕ
    → ℕ
    → DueScheduleRow
    → List Schedule
    → Tick
    → Result (Jobs × Option ℕ)
    → Result (Planned × Tick)
unfolding advance_schedule
inserted_then now next row ss k (ok (jobs, id)) =
    ok (record { schedules = advance_schedule now row.id next id ss; jobs = jobs }, counted id k)
inserted_then now next row ss k (err e) = err e

-- The body of the tick's loop. `next` is `nextOccurrence` at the process's clock, none if it throws.
unfoldable pub process_at :
    (ℕ → ℕ → String) → ℕ → ℕ → DueScheduleRow → Option ℕ → Planned → Tick → Result (Planned × Tick)
unfolding advance_schedule occurrence_row should_fire insert_job
process_at occurrence_key client_now now row none p k = ok (
  record p { schedules = advance_schedule now row.id (client_now + 3600000) none p.schedules },
  k,
)
process_at occurrence_key client_now now row (some next) p k =
    if should_fire row client_now
    then inserted_then now next row p.schedules k
        (insert_job now (occurrence_row occurrence_key row) p.jobs)
    else ok (record p { schedules = advance_schedule now row.id next none p.schedules }, k)

unfoldable pub process_row :
    (ℕ → ℕ → String)
    → (String → String → ℕ → Option ℕ)
    → ℕ
    → ℕ
    → DueScheduleRow
    → Planned
    → Tick
    → Result (Planned × Tick)
unfolding process_at
process_row occurrence_key next_occurrence client_now now row p k =
    process_at occurrence_key client_now now row (next_occurrence row.cron row.timezone client_now)
      p k

abbrev pub then_process :
    (Planned → Tick → Result (Planned × Tick)) → Result (Planned × Tick) → Result (Planned × Tick)
then_process rest (ok (p, k)) = rest p k
then_process rest (err e) = err e

unfoldable pub process_rows :
    (ℕ → ℕ → String)
    → (String → String → ℕ → Option ℕ)
    → ℕ
    → ℕ
    → List DueScheduleRow
    → Planned
    → Tick
    → Result (Planned × Tick)
unfolding process_row
process_rows occurrence_key next_occurrence client_now now [] p k = ok (p, k)
process_rows occurrence_key next_occurrence client_now now (row ∷ rows) p k =
    then_process (process_rows occurrence_key next_occurrence client_now now rows)
      (process_row occurrence_key next_occurrence client_now now row p k)

-- `tick`, all of it at one time.
unfoldable pub tick :
    (ℕ → ℕ → String)
    → (String → String → ℕ → Option ℕ)
    → ℕ
    → ℕ
    → (ℕ → Bool)
    → ℕ
    → Planned
    → Result (Planned × Tick)
unfolding process_rows claim_due_schedules
tick occurrence_key next_occurrence client_now now locked batch_max p =
    let (schedules, rows) = claim_due_schedules now locked batch_max p.schedules in
    process_rows occurrence_key next_occurrence client_now now rows
      (record p { schedules = schedules }) (record { created = 0; deduplicated = 0 })
