-- ===== src/Sql/Report.antt =====
-- packages/core/src/sql/report.sql.ts: the statements that report a delivery's outcome, all behind
-- the ownership fence.
pub mod Fence
pub mod Outcome
use pgjobq.Base.{
  ℕ, ◌+◌, ◌*◌, String, Bool, true, false, ◌&&◌, ◌||◌, Option, none, some, List, [], ◌∷◌, ◌++◌, leb,
  ◌==◌, if◌then◌else◌, length,
}
use pgjobq.Types.{Job, JobErrorRecord, JobState, DeadReason, is_running}
use pgjobq.Table.{Result, update, key_eq, is_some}

pub record FenceParams : Type 0 where
  pub id : ℕ
  pub worker_id : String
  pub attempt : ℕ

-- The fence: `id = $1 AND state = 'running' AND worker_id = $2 AND attempt = $3`.
unfoldable pub owned : FenceParams → Job → Bool
owned p j =
    j.id == p.id
    && is_running j.state
    && key_eq j.worker_id (some p.worker_id)
    && j.attempt == p.attempt

unfoldable pub completed : ℕ → Job → Job
completed now j = record j {
  state = JobState.succeeded;
  finished_at = some now;
  lease_expires_at = none;
  worker_id = none;
  updated_at = now;
}

unfoldable pub complete_job : ℕ → FenceParams → List Job → Result (List Job × List Job)
complete_job now p t = update (owned p) (completed now) t

pub record FailParams : Type 0 where
  pub fence : FenceParams
  pub non_retryable : Bool
  pub retry_delay_ms : ℕ
  pub max_error_history : ℕ
  pub error : JobErrorRecord

-- `errors - 0` of a JSON array: all but the oldest entry.
abbrev pub drop_oldest : List JobErrorRecord → List JobErrorRecord
drop_oldest [] = []
drop_oldest (e ∷ es) = es

-- The array trimmed and appended to in one expression.
unfoldable pub push_error : ℕ → JobErrorRecord → List JobErrorRecord → List JobErrorRecord
push_error bound e es = (if leb bound (length es) then drop_oldest es else es) ++ e ∷ []

unfoldable pub failed : ℕ → FailParams → Job → Job
failed now p j =
    let last = p.non_retryable || leb j.max_attempts j.attempt in
    record j {
      state = if last then JobState.dead else JobState.available;
      dead_reason =
          if p.non_retryable
          then some DeadReason.non_retryable_error
          else if leb j.max_attempts j.attempt
          then some DeadReason.attempts_exhausted
          else none;
      run_at = if last then j.run_at else now + p.retry_delay_ms;
      finished_at = if last then some now else none;
      errors = push_error p.max_error_history p.error j.errors;
      lease_expires_at = none;
      worker_id = none;
      updated_at = now;
    }

unfoldable pub fail_job : ℕ → FailParams → List Job → Result (List Job × List Job)
fail_job now p t = update (owned p.fence) (failed now p) t

unfoldable pub extended : ℕ → ℕ → Job → Job
extended now lease_seconds j = record j {
  lease_expires_at = some (now + 1000 * lease_seconds);
  updated_at = now;
}

unfoldable pub heartbeat_job : ℕ → FenceParams → ℕ → List Job → Result (List Job × List Job)
heartbeat_job now p lease_seconds t = update (owned p) (extended now lease_seconds) t

unfoldable pub acknowledged : ℕ → Job → Job
acknowledged now j = record j {
  state = JobState.cancelled;
  dead_reason = none;
  finished_at = some now;
  lease_expires_at = none;
  worker_id = none;
  updated_at = now;
}

unfoldable pub acknowledge_cancellation : ℕ → FenceParams → List Job → Result (List Job × List Job)
acknowledge_cancellation now p t =
    update (λ j. owned p j && is_some j.cancel_requested_at) (acknowledged now) t

unfoldable pub released : ℕ → Job → Job
released now j = record j {
  state = JobState.available;
  run_at = now;
  lease_expires_at = none;
  worker_id = none;
  started_at = none;
  updated_at = now;
}

unfoldable pub release_job : ℕ → FenceParams → List Job → Result (List Job × List Job)
release_job now p t = update (owned p) (released now) t
