-- ===== src/Engine/Scheduler/Management.antt =====
-- packages/core/src/engine/scheduler.ts, the management of schedules, over the statements
-- createSchedule, listSchedules, getSchedule and deleteSchedule of sql/schedule.sql.ts.
pub mod Pausing
use pgjobq.Base.{
  map, ℕ, suc, String, Bool, true, false, not, Option, none, some, List, [], ◌∷◌, ◌++◌, where_, any,
  order_by, ◌==◌, str_eq, if◌then◌else◌,
}
use pgjobq.Types.{Job, CatchupPolicy}
use pgjobq.Sql.Schedule.{Schedule, set_where, set_schedule_enabled}

-- The table, with its sequence.
pub record ScheduleTable : Type 0 where
  pub rows : List Schedule
  pub next_id : ℕ

pub record NewSchedule : Type 0 where
  pub name : String
  pub queue : String
  pub type : String
  pub payload : Option String
  pub cron : String
  pub timezone : Option String
  pub catchup_policy : Option CatchupPolicy
  pub enabled : Option Bool

-- What a call throws: a ValidationError of `nextOccurrence`, or the database's error on a name that is
-- taken; or what it returns.
pub data Managed {ℓ} (A : Type ℓ) : Type ℓ where
  invalid_cron name_taken : Managed A
  managed : A → Managed A

abbrev pub given {ℓ} : {A : Type ℓ} → A → Option A → A
given d none = d
given d (some a) = a

unfoldable pub get_schedule : ℕ → List Schedule → Option Schedule
get_schedule id [] = none
get_schedule id (s ∷ ss) = let rest = get_schedule id ss in if s.id == id then some s else rest

-- `ORDER BY name`, by an order of texts.
unfoldable pub list_schedules : (String → String → Bool) → List Schedule → List Schedule
list_schedules before ss = order_by (λ (a : Schedule). λ (b : Schedule). before a.name b.name) ss

unfoldable pub created_row : ℕ → ℕ → NewSchedule → ℕ → Schedule
created_row now id p next = record {
  id = id;
  name = p.name;
  queue = p.queue;
  type = p.type;
  payload = given "{}" p.payload;
  cron = p.cron;
  timezone = given "UTC" p.timezone;
  catchup_policy = given CatchupPolicy.skip_missed p.catchup_policy;
  enabled = given true p.enabled;
  next_run_at = next;
  last_run_at = none;
  last_job_id = none;
  updated_at = now;
}

-- The insertion; the sequence moves on even if the name is taken.
abbrev pub inserted : ℕ → NewSchedule → ScheduleTable → ℕ → Managed Schedule × ScheduleTable
unfolding created_row
inserted now p t next =
    if any (λ (s : Schedule). str_eq s.name p.name) t.rows
    then (name_taken, record t { next_id = suc t.next_id })
    else (
      managed (created_row now t.next_id p next),
      record { rows = t.rows ++ created_row now t.next_id p next ∷ []; next_id = suc t.next_id },
    )

abbrev pub planned_insert :
    ℕ → NewSchedule → ScheduleTable → Option ℕ → Managed Schedule × ScheduleTable
unfolding created_row
planned_insert now p t none = (invalid_cron, t)
planned_insert now p t (some next) = inserted now p t next

-- The cron library: the first occurrence after a time, if there is one.
module _ (next_occurrence : String → String → ℕ → Option ℕ) where
  -- `create`, at a time of the process and of the database.
  unfoldable pub create : ℕ → ℕ → NewSchedule → ScheduleTable → Managed Schedule × ScheduleTable
  unfolding created_row
  create process_now now p t =
      planned_insert now p t (next_occurrence p.cron (given "UTC" p.timezone) process_now)

  -- The rows after the statement of `setEnabled`, and the row that it returned.
  abbrev pub enabled_rows :
      ℕ → ℕ → Bool → Option ℕ → List Schedule → Option Schedule × List Schedule
  enabled_rows now id enabled next ss =
      let rows = set_schedule_enabled now id enabled next ss in (get_schedule id rows, rows)

  abbrev pub resumed :
      ℕ
      → ℕ
      → List Schedule
      → (Bool → Option ℕ → Option Schedule × List Schedule)
      → Option ℕ
      → Managed (Option Schedule) × List Schedule
  resumed now id ss set none = (invalid_cron, ss)
  resumed now id ss set (some next) = let (row, rows) = set true (some next) in (managed row, rows)

  abbrev pub set_found :
      ℕ → ℕ → ℕ → Bool → List Schedule → Option Schedule → Managed (Option Schedule) × List Schedule
  unfolding set_schedule_enabled get_schedule
  set_found process_now now id enabled ss none = (managed none, ss)
  set_found process_now now id false ss (some s) =
      let (row, rows) = enabled_rows now id false none ss in (managed row, rows)
  set_found process_now now id true ss (some s) =
      resumed now id ss (λ e n. enabled_rows now id e n ss)
        (next_occurrence s.cron s.timezone process_now)

  -- `setEnabled`, whose two statements see the same rows.
  unfoldable pub set_enabled :
      ℕ → ℕ → ℕ → Bool → List Schedule → Managed (Option Schedule) × List Schedule
  unfolding set_schedule_enabled get_schedule
  set_enabled process_now now id enabled ss =
      set_found process_now now id enabled ss (get_schedule id ss)

abbrev pub is_id : ℕ → Option ℕ → Bool
is_id id none = false
is_id id (some i) = i == id

-- ON DELETE SET NULL
abbrev pub unlinked : ℕ → Job → Job
unlinked id j = if is_id id j.schedule_id then record j { schedule_id = none } else j

-- `delete`: whether a schedule was deleted, the rows, and the jobs, which refer to it no longer.
unfoldable pub delete : ℕ → List Schedule × List Job → Bool × (List Schedule × List Job)
delete id (ss, t) = (
  any (λ (s : Schedule). s.id == id) ss,
  (where_ (λ (s : Schedule). not (s.id == id)) ss, map (unlinked id) t),
)
