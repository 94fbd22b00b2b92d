-- ===== src/Types.antt =====
-- packages/core/src/types.ts, sql/rows.ts: the domain types, and a row of the job table.
use pgjobq.Base.{ℕ, String, Bool, true, false, Option, List}
use pgjobq.Base.Int.{ℤ}

-- `JOB_STATES`
pub data JobState : Type 0 where
  available running succeeded dead cancelled : JobState

-- `DEAD_REASONS`; its `cancelled` shares its name with the state.
pub data DeadReason : Type 0 where
  attempts_exhausted lease_expired non_retryable_error cancelled : DeadReason

pub data JitterStrategy : Type 0 where
  full equal none : JitterStrategy

pub data CatchupPolicy : Type 0 where
  skip_missed run_once : CatchupPolicy

-- The `kind` of a `JobErrorRecord`.
pub data ErrorKind : Type 0 where
  handler_error timeout lease_expired validation_error no_handler : ErrorKind

pub record JobErrorRecord : Type 0 where
  pub attempt : ℕ
  pub at : ℕ
  pub kind : ErrorKind
  pub name : Option String
  pub message : Option String
  pub stack : Option String
  pub worker_id : Option String

-- A row of the table `job`, under the names of its columns. Times are milliseconds of the
-- database's clock, JSON columns hold the serialised text, and an id is the number that the
-- text of a bigint stands for.
pub record Job : Type 0 where
  pub id : ℕ
  pub queue : String
  pub type : String
  pub state : JobState
  pub payload : String
  pub metadata : Option String
  pub priority : ℤ
  pub attempt : ℕ
  pub max_attempts : ℕ
  pub lease_seconds : ℕ
  pub run_at : ℕ
  pub enqueued_at : ℕ
  pub started_at : Option ℕ
  pub finished_at : Option ℕ
  pub lease_expires_at : Option ℕ
  pub cancel_requested_at : Option ℕ
  pub worker_id : Option String
  pub idempotency_key : Option String
  pub unique_key : Option String
  pub dead_reason : Option DeadReason
  pub errors : List JobErrorRecord
  pub trace_context : Option String
  pub schedule_id : Option ℕ
  pub updated_at : ℕ

-- What a worker is given of a row.
pub record ClaimedJob : Type 0 where
  pub id : ℕ
  pub queue : String
  pub type : String
  pub payload : String
  pub metadata : Option String
  pub attempt : ℕ
  pub max_attempts : ℕ
  pub lease_seconds : ℕ
  pub lease_expires_at : Option ℕ
  pub trace_context : Option String
  pub enqueued_at : ℕ

-- The columns that `resolveQueueDefaults` and the claim read of a row of `queue_config`, and
-- its retention windows, in milliseconds.
pub record QueueConfig : Type 0 where
  pub queue : String
  pub paused : Bool
  pub max_attempts : Option ℕ
  pub lease_seconds : Option ℕ
  pub priority_aging : Bool
  pub aging_threshold_s : Option ℕ
  pub concurrency_limit : Option ℕ
  pub retain_succeeded : ℕ
  pub retain_dead : ℕ

-- Tests of a state, as the statements write them.
abbrev pub is_available : JobState → Bool
is_available available = true
is_available _ = false

abbrev pub is_running : JobState → Bool
is_running running = true
is_running _ = false

abbrev pub is_dead : JobState → Bool
is_dead dead = true
is_dead _ = false

-- `TERMINAL_STATES`
abbrev pub is_terminal : JobState → Bool
is_terminal succeeded = true
is_terminal dead = true
is_terminal cancelled = true
is_terminal _ = false

-- `state IN ('available', 'running')`, the predicate of job_unique_active_idx.
abbrev pub is_active : JobState → Bool
is_active available = true
is_active running = true
is_active _ = false
