-- ===== src/History.antt =====
-- A history of the job table: the statements of packages/core/src/sql in any order, by any number of
-- workers, reapers and operators. A statement is atomic; what interleaves is statements.
pub mod Effect
pub mod Steps
pub mod Owners
pub mod Deliveries
pub mod Reports
pub mod Final
pub mod Budget
pub mod Reuse
pub mod Errors
use pgjobq.Base.{
  ℕ, ◌+◌, String, Bool, true, false, Option, none, some, List, [], ◌∷◌, ◌++◌, map, where_,
}
use pgjobq.Types.{Job, JobState, QueueConfig}
use pgjobq.Table.{Result, ok, err}
use pgjobq.Sql.Claim.{ClaimParams, claim_jobs, claim_jobs_with_aging}
use pgjobq.Sql.Report.Fence.{Report, send}
use pgjobq.Sql.Reap.{reap_expired_leases}
use pgjobq.Sql.Query.{
  cancel_available_job, request_cancel_running_job, retry_job_now, replay_dead_job,
  replay_dead_jobs, purge_queue,
}
use pgjobq.Sql.Enqueue.{EnqueueRow, Jobs, insert_job}
use pgjobq.Sql.Retention.{PruneParams, prune_terminal_jobs}

pub data Op : Type 0 where
  enqueues : EnqueueRow → Op
  claims : List QueueConfig → (ℕ → Bool) → ClaimParams → Op
  claims_aging : List QueueConfig → (ℕ → Bool) → ClaimParams → ℕ → Op
  reports : Report → Op
  reaps : (ℕ → Bool) → ℕ → ℕ → Op
  cancels : ℕ → Op
  requests_cancel : ℕ → Op
  retries : ℕ → Op
  replays : ℕ → Op
  replays_many : List ℕ → Op
  prunes : PruneParams → List QueueConfig → (ℕ → Bool) → Op
  purges : (ℕ → Bool) → String → List JobState → ℕ → Op

-- A delivery that a claim has handed out.
pub record Grant : Type 0 where
  pub id : ℕ
  pub attempt : ℕ
  pub worker : String

-- The table, and every delivery handed out so far, the latest first.
pub record World : Type 0 where
  pub jobs : Jobs
  pub grants : List Grant

abbrev pub inserted : Result (Jobs × Option ℕ) → Result (Jobs × List Job)
inserted (ok (s, _)) = ok (s, [])
inserted (err e) = err e

abbrev pub on_rows : Jobs → Result (List Job × List Job) → Result (Jobs × List Job)
on_rows s (ok (t, w)) = ok (record s { rows = t }, w)
on_rows s (err e) = err e

abbrev pub deleted : Jobs → List Job × List Job → Result (Jobs × List Job)
deleted s (t, w) = ok (record s { rows = t }, w)

-- The statement of a step, at a time of the database's clock.
unfoldable pub exec : ℕ → Op → Jobs → Result (Jobs × List Job)
exec now (enqueues r) s = inserted (insert_job now r s)
exec now (claims cs locked p) s = on_rows s (claim_jobs cs now locked p s.rows)
exec now (claims_aging cs locked p threshold) s =
    on_rows s (claim_jobs_with_aging cs now locked p threshold s.rows)
exec now (reports r) s = on_rows s (send now r s.rows)
exec now (reaps locked limit delay) s =
    on_rows s (reap_expired_leases now locked limit delay s.rows)
exec now (cancels id) s = on_rows s (cancel_available_job now id s.rows)
exec now (requests_cancel id) s = on_rows s (request_cancel_running_job now id s.rows)
exec now (retries id) s = on_rows s (retry_job_now now id s.rows)
exec now (replays id) s = on_rows s (replay_dead_job now id s.rows)
exec now (replays_many wanted) s = on_rows s (replay_dead_jobs now wanted s.rows)
exec now (prunes p cs locked) s = deleted s (prune_terminal_jobs p cs now locked s.rows)
exec now (purges locked queue states limit) s =
    deleted s (purge_queue locked queue states limit s.rows)

abbrev pub worker_of : Op → Option String
worker_of (claims _ _ p) = some p.worker_id
worker_of (claims_aging _ _ p _) = some p.worker_id
worker_of _ = none

abbrev pub is_enqueue : Op → Bool
is_enqueue (enqueues _) = true
is_enqueue _ = false

abbrev pub is_replay : Op → Bool
is_replay (replays _) = true
is_replay (replays_many _) = true
is_replay _ = false

abbrev pub grant : String → Job → Grant
grant w j = record { id = j.id; attempt = j.attempt; worker = w }

abbrev pub granted : Option String → List Job → List Grant
granted none w = []
granted (some worker) w = map (grant worker) w

abbrev pub after : World → Option String → Result (Jobs × List Job) → World
after g worker (ok (s, w)) = record { jobs = s; grants = granted worker w ++ g.grants }
after g worker (err e) = g

-- A statement that fails leaves the table as it was.
unfoldable pub step : ℕ × Op → World → World
step (now, op) g = after g (worker_of op) (exec now op g.jobs)

unfoldable pub run : List (ℕ × Op) → World → World
run [] g = g
run (e ∷ es) g = run es (step e g)
