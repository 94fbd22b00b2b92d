-- ===== src/Worker/Runner.antt =====
-- packages/core/src/worker/runner.ts: one delivery, from the handler's end to its report.
pub mod Settling
pub mod Verdicts
use pgjobq.Base.{
  ℕ, ◌*◌, min, String, Bool, true, false, ◌&&◌, ◌||◌, not, Option, none, some, List, [], ◌∷◌,
  if◌then◌else◌,
}
use pgjobq.Types.{Job, ClaimedJob, ErrorKind, is_dead}
use pgjobq.Table.{Elsewhere, Result, ok, err, PgError, is_some}
use pgjobq.Errors.{ThrownKind, Thrown, is_non_retryable, normalize_error}
use pgjobq.Sql.Report.{
  FenceParams, FailParams, complete_job, fail_job, heartbeat_job, acknowledge_cancellation,
  release_job,
}

-- The options that the outcome depends on. `next_delay_ms` is `nextDelayMs` with its draw made.
pub record RunnerOptions : Type 0 where
  pub worker_id : String
  pub next_delay_ms : ℕ → ℕ
  pub max_ms : ℕ
  pub max_error_history : ℕ
  pub max_error_text_bytes : ℕ
  pub truncate : ℕ → String → String

pub data RunOutcome : Type 0 where
  succeeded retried dead cancelled ownership_lost : RunOutcome

unfoldable pub fence_for : RunnerOptions → ClaimedJob → FenceParams
fence_for o job = record { id = job.id; worker_id = o.worker_id; attempt = job.attempt }

pub record Flags : Type 0 where
  pub timed_out : Bool
  pub cancel_requested : Bool

-- The flags with the reason of the abort signal.
pub record Signals : Type 0 where
  pub flags : Flags
  pub aborted : Option ThrownKind

-- `AbortController.abort`: only the first call counts.
abbrev pub abort : Option ThrownKind → ThrownKind → Option ThrownKind
abort none k = some k
abort (some a) k = some a

-- The timer of the job's time limit.
unfoldable pub time_out : Signals → Signals
time_out s = record {
  flags = record { timed_out = true; cancel_requested = s.flags.cancel_requested };
  aborted = abort s.aborted ThrownKind.handler_timeout;
}

-- After the statement of a heartbeat: the signals, and what it throws.
unfoldable pub beaten : Signals → List Job → Signals × Option ThrownKind
beaten s [] = (
  record s { aborted = abort s.aborted ThrownKind.ownership_lost },
  some ThrownKind.ownership_lost,
)
beaten s (row ∷ rows) = (
  if is_some row.cancel_requested_at && not s.flags.cancel_requested
      then record {
        flags = record { timed_out = s.flags.timed_out; cancel_requested = true };
        aborted = abort s.aborted ThrownKind.job_cancelled;
      }
      else s,
  none,
)

-- `classify`
unfoldable pub classify : ThrownKind → ErrorKind
classify ThrownKind.handler_timeout = ErrorKind.timeout
classify ThrownKind.zod_error = ErrorKind.validation_error
classify ThrownKind.no_handler = ErrorKind.no_handler
classify _ = ErrorKind.handler_error

abbrev pub is_ownership_lost : ThrownKind → Bool
is_ownership_lost ThrownKind.ownership_lost = true
is_ownership_lost _ = false

abbrev pub is_job_cancelled : ThrownKind → Bool
is_job_cancelled ThrownKind.job_cancelled = true
is_job_cancelled _ = false

abbrev pub never_retried : ErrorKind → Bool
never_retried ErrorKind.validation_error = true
never_retried ErrorKind.no_handler = true
never_retried _ = false

-- A delay that the handler asked for is capped; any other is the backoff's.
unfoldable pub retry_delay : RunnerOptions → ClaimedJob → ThrownKind → ℕ
retry_delay o job (ThrownKind.retry_after ms) = min ms o.max_ms
retry_delay o job _ = o.next_delay_ms job.attempt

-- The parameters of the failure report.
unfoldable pub failure_of : RunnerOptions → ClaimedJob → Thrown → Flags → ℕ → FailParams
unfolding fence_for retry_delay
failure_of o job e flags now =
    let kind = if flags.timed_out then ErrorKind.timeout else classify e.kind in
    record {
      fence = fence_for o job;
      non_retryable = is_non_retryable e.kind || never_retried kind;
      retry_delay_ms = retry_delay o job e.kind;
      max_error_history = o.max_error_history;
      error = normalize_error o.truncate e job.attempt kind o.max_error_text_bytes now o.worker_id;
    }

-- What is made of the failure report's rows.
abbrev pub failure_reported : Result (List Job × List Job) → Result (List Job × RunOutcome)
failure_reported (ok (t, [])) = ok (t, ownership_lost)
failure_reported (ok (t, row ∷ rows)) = ok (t, if is_dead row.state then dead else retried)
failure_reported (err e) = err e

-- What is made of an acknowledgement's rows: with none, the run goes on.
abbrev pub acknowledged_or :
    (List Job → Result (List Job × RunOutcome))
    → Result (List Job × List Job)
    → Result (List Job × RunOutcome)
acknowledged_or rest (ok (t, [])) = rest t
acknowledged_or rest (ok (t, row ∷ rows)) = ok (t, cancelled)
acknowledged_or rest (err e) = err e

-- The failure report, as statement 3.
unfoldable pub record_failure :
    RunnerOptions
    → Elsewhere
    → ClaimedJob
    → Thrown
    → Flags
    → List Job
    → Result (List Job × RunOutcome)
record_failure o w job e flags t =
    failure_reported (fail_job (w.clock 3) (failure_of o job e flags (w.clock 3)) (w.between 3 t))

-- `reportFailure`; its acknowledgement is statement 2.
unfoldable pub report_failure :
    RunnerOptions
    → Elsewhere
    → ClaimedJob
    → Thrown
    → Flags
    → List Job
    → Result (List Job × RunOutcome)
unfolding record_failure
report_failure o w job e flags t =
    if is_ownership_lost e.kind
    then ok (t, ownership_lost)
    else if flags.cancel_requested || is_job_cancelled e.kind
    then acknowledged_or (record_failure o w job e flags)
        (acknowledge_cancellation (w.clock 2) (fence_for o job) (w.between 2 t))
    else record_failure o w job e flags t

abbrev pub database_error : Thrown
database_error = record {
  kind = ThrownKind.other;
  name = "DatabaseError";
  message = "";
  stack = "";
}

-- What is made of the completion's rows, and of its error.
abbrev pub completion_reported :
    Result (List Job × RunOutcome) → Result (List Job × List Job) → Result (List Job × RunOutcome)
completion_reported caught (ok (t, [])) = ok (t, ownership_lost)
completion_reported caught (ok (t, row ∷ rows)) = ok (t, succeeded)
completion_reported caught (err e) = caught

-- The `catch` of `run` takes the errors of the next two statements too; a statement that failed has
-- left the table as it was.
unfoldable pub report_completion :
    RunnerOptions → Elsewhere → ClaimedJob → Flags → List Job → Result (List Job × RunOutcome)
unfolding report_failure
report_completion o w job flags t =
    completion_reported (report_failure o w job database_error flags (w.between 1 t))
      (complete_job (w.clock 1) (fence_for o job) (w.between 1 t))

-- A handler that returned: an acknowledgement (statement 0) if a cancellation was requested, and
-- else, or if that is fenced out, the completion (statement 1).
unfoldable pub report_success :
    RunnerOptions → Elsewhere → ClaimedJob → Flags → List Job → Result (List Job × RunOutcome)
unfolding report_completion
report_success o w job flags t =
    if flags.cancel_requested
    then elim (acknowledge_cancellation (w.clock 0) (fence_for o job) (w.between 0 t)) [
      | ok (t', []) ↦ report_completion o w job flags t'
      | ok (t', row ∷ rows) ↦ ok (t', cancelled)
      | err e ↦ report_failure o w job database_error flags (w.between 0 t)
    ]
    else report_completion o w job flags t

-- `run` from the end of the handler on, which returned or threw.
unfoldable pub run_job :
    RunnerOptions
    → Elsewhere
    → ClaimedJob
    → Option Thrown
    → Flags
    → List Job
    → Result (List Job × RunOutcome)
unfolding report_success report_failure
run_job o w job none flags t = report_success o w job flags t
run_job o w job (some e) flags t = report_failure o w job e flags t

abbrev returned_rows : List Job → Bool
returned_rows [] = false
returned_rows (row ∷ rows) = true

abbrev pub rows_released : Result (List Job × List Job) → Result (List Job × Bool)
rows_released (ok (t, rows)) = ok (t, returned_rows rows)
rows_released (err e) = err e

-- `release`: whether a row was released.
unfoldable pub release : RunnerOptions → ClaimedJob → ℕ → List Job → Result (List Job × Bool)
release o job now t = rows_released (release_job now (fence_for o job) t)
