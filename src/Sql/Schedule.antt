-- ===== src/Sql/Schedule.antt =====
-- packages/core/src/sql/schedule.sql.ts: the table of schedules and its statements.
pub mod Rows
use pgjobq.Base.{
  ℕ, String, Bool, ◌&&◌, not, Option, none, some, List, [], ◌∷◌, map, leb, ◌==◌, if◌then◌else◌,
  where_, any, order_by, take,
}
use pgjobq.Types.{CatchupPolicy}

pub record Schedule : Type 0 where
  pub id : ℕ
  pub name : String
  pub queue : String
  pub type : String
  pub payload : String
  pub cron : String
  pub timezone : String
  pub catchup_policy : CatchupPolicy
  pub enabled : Bool
  pub next_run_at : ℕ
  pub last_run_at : Option ℕ
  pub last_job_id : Option ℕ
  pub updated_at : ℕ

pub record DueScheduleRow : Type 0 where
  pub id : ℕ
  pub name : String
  pub queue : String
  pub type : String
  pub payload : String
  pub cron : String
  pub timezone : String
  pub catchup_policy : CatchupPolicy
  pub planned_for : ℕ

-- UPDATE of a table that no statement here can bring against a constraint.
unfoldable pub set_where : (Schedule → Bool) → (Schedule → Schedule) → List Schedule → List Schedule
set_where p f [] = []
set_where p f (s ∷ ss) = (if p s then f s else s) ∷ set_where p f ss

unfoldable pub due : ℕ → Schedule → Bool
due now s = s.enabled && leb s.next_run_at now

unfoldable pub due_schedules : ℕ → (ℕ → Bool) → ℕ → List Schedule → List Schedule
unfolding due
due_schedules now locked limit ss = take limit (
    where_ (λ s. not (locked s.id))
      (order_by (λ a b. leb a.next_run_at b.next_run_at) (where_ (due now) ss)))

unfoldable pub due_row : Schedule → DueScheduleRow
due_row s = record {
  id = s.id;
  name = s.name;
  queue = s.queue;
  type = s.type;
  payload = s.payload;
  cron = s.cron;
  timezone = s.timezone;
  catchup_policy = s.catchup_policy;
  planned_for = s.next_run_at;
}

-- `claimDueSchedules`: `next_run_at` stays, for the caller to advance.
unfoldable pub claim_due_schedules :
    ℕ → (ℕ → Bool) → ℕ → List Schedule → List Schedule × List DueScheduleRow
unfolding set_where due_schedules due_row
claim_due_schedules now locked limit ss =
    let chosen =
      λ (s : Schedule). any (λ (c : Schedule). c.id == s.id) (due_schedules now locked limit ss) in
    (
      set_where chosen (λ s. record s { last_run_at = some s.next_run_at; updated_at = now }) ss,
      map due_row (where_ chosen ss),
    )

abbrev pub kept_or : Option ℕ → Option ℕ → Option ℕ
kept_or none old = old
kept_or (some id) old = some id

unfoldable pub advanced_to : ℕ → ℕ → Option ℕ → Schedule → Schedule
advanced_to now next last s = record s {
  next_run_at = next;
  last_job_id = kept_or last s.last_job_id;
  updated_at = now;
}

unfoldable pub advance_schedule : ℕ → ℕ → ℕ → Option ℕ → List Schedule → List Schedule
unfolding set_where advanced_to
advance_schedule now id next last ss = set_where (λ s. s.id == id) (advanced_to now next last) ss

abbrev pub time_or : Option ℕ → ℕ → ℕ
time_or none old = old
time_or (some t) old = t

abbrev pub enabled_to : ℕ → Bool → Option ℕ → Schedule → Schedule
enabled_to now enabled next s = record s {
  enabled = enabled;
  next_run_at = time_or next s.next_run_at;
  updated_at = now;
}

unfoldable pub set_schedule_enabled : ℕ → ℕ → Bool → Option ℕ → List Schedule → List Schedule
unfolding set_where
set_schedule_enabled now id enabled next ss =
    set_where (λ s. s.id == id) (enabled_to now enabled next) ss
