-- ===== src/Examples.antt =====
-- Small tables and histories at which the properties are applied.
pub mod Claims
pub mod Reports
pub mod Histories
pub mod Migrations
pub mod Operators
pub mod Workers
pub mod Clients
pub mod Engines
pub mod Servers
pub mod Processes
use pgjobq.Base.{
  ℕ, ◌≡◌, refl, String, Bool, true, false, Option, none, some, List, [], ◌∷◌, arith, where_, all,
  any,
}
use pgjobq.Base.Int.{ℤ, pos}
use pgjobq.Types.{Job, JobState, DeadReason, QueueConfig, JobErrorRecord, ErrorKind}
use pgjobq.Table.{check_row, clash, unique_rows}
use pgjobq.Table.Valid.{IsValid}
use pgjobq.Sql.Claim.{ClaimParams}
use pgjobq.Sql.Enqueue.{EnqueueRow, Jobs}
use pgjobq.Sql.Report.{FenceParams, FailParams}
use pgjobq.Sql.Report.Fence.{Report, completes, fails}
use pgjobq.History.{Op, World, enqueues, claims, reports, reaps}
use pgjobq.History.Owners.{IsSound}
use pgjobq.History.Deliveries.{IsFenced}

-- Job 1 waits.
abbrev pub waiting : Job
waiting = record {
  id = 1;
  queue = "mail";
  type = "send";
  state = JobState.available;
  payload = "{}";
  metadata = none;
  priority = pos 0;
  attempt = 0;
  max_attempts = 2;
  lease_seconds = 30;
  run_at = 0;
  enqueued_at = 0;
  started_at = none;
  finished_at = none;
  lease_expires_at = none;
  cancel_requested_at = none;
  worker_id = none;
  idempotency_key = none;
  unique_key = some "u";
  dead_reason = none;
  errors = [];
  trace_context = none;
  schedule_id = none;
  updated_at = 0;
}

-- The worker a runs its first attempt, or its last.
abbrev pub first_run : Job
first_run = record waiting {
  state = JobState.running;
  attempt = 1;
  worker_id = some "a";
  lease_expires_at = some 30000;
}

abbrev pub last_run : Job
last_run = record first_run { attempt = 2 }

-- It has used up its attempts.
abbrev pub finished : Job
finished = record waiting {
  state = JobState.dead;
  attempt = 2;
  dead_reason = some DeadReason.attempts_exhausted;
  finished_at = some 9;
}

-- Another job of the same unique key.
abbrev pub rival : Job
rival = record waiting { id = 2 }

abbrev pub by : String → ClaimParams
by worker = record { queue = "mail"; limit = 5; worker_id = worker }

abbrev pub fence : String → ℕ → FenceParams
fence worker attempt = record { id = 1; worker_id = worker; attempt = attempt }

abbrev pub nobody : ℕ → Bool
nobody _ = false

abbrev pub oops : JobErrorRecord
oops = record {
  attempt = 1;
  at = 5;
  kind = ErrorKind.handler_error;
  name = none;
  message = none;
  stack = none;
  worker_id = some "a";
}

abbrev pub failure : FailParams
failure = record {
  fence = fence "a" 1;
  non_retryable = false;
  retry_delay_ms = 500;
  max_error_history = 5;
  error = oops;
}

-- A table of one row.
pub one-IsValid : (j : Job) → check_row j ≡ true → j.id ≡ 1 → IsValid 3 (j ∷ [])
unfolding all any unique_rows
one-IsValid j c e = record {
  checks = rw c refl;
  keys = refl;
  ids = (λ k m. absurd m, tt);
  below = λ k m. ground (arith, m);
}

-- Nothing has happened.
abbrev pub start : World
start = record { jobs = record { rows = []; next_id = 1 }; grants = [] }

pub start-IsSound : IsSound start
unfolding all any unique_rows
start-IsSound = record {
  good = record { checks = refl; keys = refl; ids = tt; below = λ k m. absurd m };
  known = λ a m. absurd m;
  positive = λ a m. absurd m;
  held = λ j m e. absurd m;
}

pub start-IsFenced : IsFenced start
start-IsFenced = record { spent = λ a j m n e. absurd m; once = tt }

abbrev pub a_row : EnqueueRow
a_row = record {
  queue = "mail";
  type = "send";
  payload = "{}";
  metadata = none;
  priority = pos 0;
  max_attempts = 2;
  lease_seconds = 30;
  run_at = none;
  idempotency_key = none;
  unique_key = some "u";
  trace_context = none;
  schedule_id = none;
}

-- The worker a claims the job and goes silent.
abbrev pub silent : List (ℕ × Op)
silent = (0, enqueues a_row) ∷ (10, claims [] nobody (by "a")) ∷ []

-- The job is reaped, and the worker b claims it.
abbrev pub retaken : List (ℕ × Op)
retaken =
    (0, enqueues a_row)
    ∷ (10, claims [] nobody (by "a"))
    ∷ (40000, reaps nobody 100 500)
    ∷ (50000, claims [] nobody (by "b"))
    ∷ []
