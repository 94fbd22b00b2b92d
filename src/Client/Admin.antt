-- ===== src/Client/Admin.antt =====
-- packages/core/src/client.ts: reads by id and the operator's calls, with their audit log.
pub mod Audited
pub mod Cancel
pub mod Purge
use pgjobq.Base.{
  min, max, ℕ, zero, suc, ◌+◌, String, Bool, true, false, not, Option, none, some, List, [], ◌∷◌,
  ◌++◌, map, where_, any, ltb, leb, ◌==◌, str_eq, length, if◌then◌else◌,
}
use pgjobq.Types.{Job, JobState, QueueConfig}
use pgjobq.Table.{Elsewhere, Result, ok, err, among}
use pgjobq.StateMachine.{permitted_targets}
use pgjobq.Sql.Query.{
  get_job, cancel_available_job, request_cancel_running_job, retry_job_now, replay_dead_job,
  replay_dead_jobs, purge_queue,
}
use pgjobq.Client.{
  ClientError, validation_error, conflict, job_not_found, invalid_transition, database_error,
  Answer, returns, throws,
}
use pgjobq.Sql.Listing.{ListJobsParams, ListDeadParams, list_jobs, list_dead_jobs, set_queue_paused}
use pgjobq.Client.Build.{Cached}
use pgjobq.Client.Names.{valid_name}

pub data Target : Type 0 where
  of_job : ℕ → Target
  of_queue : String → Target
  of_schedule : ℕ → Target
  of_none : Target

-- An entry of the audit log, without its detail.
pub record Audit : Type 0 where
  pub actor : String
  pub action : String
  pub target : Target

-- The job table and the audit log.
pub record Store : Type 0 where
  pub rows : List Job
  pub audits : List Audit

abbrev pub audit : String → String → Target → Store → Store
audit actor action target s = record s {
  audits = s.audits ++ record { actor = actor; action = action; target = target } ∷ [];
}

abbrev pub CancelResult : Type 0
CancelResult = JobState × Bool

-- `getJob`, or what else is thrown if the job is there.
abbrev pub thrown_for {ℓ} : {A : Type ℓ} → ℕ → (Job → ClientError) → Option Job → Answer A
thrown_for id e none = throws (job_not_found id)
thrown_for id e (some j) = throws (e j)

abbrev pub uncancellable : Job → ClientError
unfolding permitted_targets
uncancellable j =
    invalid_transition
      (record { from = j.state; to = JobState.cancelled; permitted = permitted_targets j.state })

abbrev pub requested_or :
    Elsewhere → ℕ → String → Store → Result (List Job × List Job) → Answer CancelResult × Store
unfolding get_job permitted_targets
requested_or w id actor s (ok (t, [])) =
    let t' = w.between 2 t in (thrown_for id uncancellable (get_job id t'), record s { rows = t' })
requested_or w id actor s (ok (t, row ∷ rows)) = (
  returns (JobState.running, false),
  audit actor "job.cancel_requested" (of_job id) (record s { rows = t }),
)
requested_or w id actor s (err e) = (throws (database_error e), s)

abbrev pub cancelled_or :
    Elsewhere → ℕ → String → Store → Result (List Job × List Job) → Answer CancelResult × Store
unfolding request_cancel_running_job get_job permitted_targets
cancelled_or w id actor s (ok (t, [])) =
    let t' = w.between 1 t in
    requested_or w id actor (record s { rows = t' }) (request_cancel_running_job (w.clock 1) id t')
cancelled_or w id actor s (ok (t, row ∷ rows)) = (
  returns (JobState.cancelled, true),
  audit actor "job.cancel" (of_job id) (record s { rows = t }),
)
cancelled_or w id actor s (err e) = (throws (database_error e), s)

-- `cancel`
unfoldable pub cancel : Elsewhere → ℕ → String → Store → Answer CancelResult × Store
unfolding cancel_available_job
cancel w id actor s =
    let t = w.between 0 s.rows in
    cancelled_or w id actor (record s { rows = t }) (cancel_available_job (w.clock 0) id t)

abbrev pub found_or_missing : ℕ → Option Job → Answer Job
found_or_missing id none = throws (job_not_found id)
found_or_missing id (some j) = returns j

abbrev pub refused : Job → ClientError
refused j = conflict (some j.id)

-- `retryNow` and `replay` share their shape: a statement, then a read of the job.
abbrev pub then_read :
    Elsewhere → ℕ → String → String → Store → Result (List Job × List Job) → Answer Job × Store
unfolding get_job
then_read w id actor action s (ok (t, [])) =
    let t' = w.between 1 t in (thrown_for id refused (get_job id t'), record s { rows = t' })
then_read w id actor action s (ok (t, row ∷ rows)) =
    let t' = w.between 1 t in
    (found_or_missing id (get_job id t'), audit actor action (of_job id) (record s { rows = t' }))
then_read w id actor action s (err e) = (throws (database_error e), s)

unfoldable pub retry_now : Elsewhere → ℕ → String → Store → Answer Job × Store
unfolding retry_job_now
retry_now w id actor s =
    let t = w.between 0 s.rows in
    then_read w id actor "job.retry_now" (record s { rows = t }) (retry_job_now (w.clock 0) id t)

unfoldable pub replay : Elsewhere → ℕ → String → Store → Answer Job × Store
unfolding replay_dead_job
replay w id actor s =
    let t = w.between 0 s.rows in
    then_read w id actor "job.replay" (record s { rows = t }) (replay_dead_job (w.clock 0) id t)

-- The ids replayed and the ids skipped.
abbrev pub Replays : Type 0
Replays = List ℕ × List ℕ

abbrev pub bulk_replayed :
    List ℕ → String → Store → Result (List Job × List Job) → Answer Replays × Store
bulk_replayed ids actor s (ok (t, rows)) =
    let replayed = map (λ (j : Job). j.id) rows in
    (
      returns (replayed, where_ (λ i. not (any (λ r. r == i) replayed)) ids),
      audit actor "job.replay_bulk" of_none (record s { rows = t }),
    )
bulk_replayed ids actor s (err e) = (throws (database_error e), s)

-- `replayMany`
unfoldable pub replay_many : ℕ → List ℕ → String → Store → Answer Replays × Store
replay_many now [] actor s = (returns ([], []), s)
replay_many now (i ∷ ids) actor s =
    bulk_replayed (i ∷ ids) actor s (replay_dead_jobs now (i ∷ ids) s.rows)

-- The loop of `purge`, over at most that many batches: the rows deleted, and the table.
unfoldable pub purge_batches :
    (ℕ → ℕ → Bool) → String → List JobState → ℕ → ℕ → List Job → ℕ × List Job
purge_batches locked queue states size zero t = (0, t)
purge_batches locked queue states size (suc batches) t =
    let (t', deleted) = purge_queue (locked batches) queue states size t in
    let rest = purge_batches locked queue states size batches t' in
    if ltb (length deleted) size then (length deleted, t') else (length deleted + rest.0, rest.1)

-- `purge`, whose n-th batch meets the row locks `locked n`, counted down.
unfoldable pub purge :
    (ℕ → ℕ → Bool) → String → List JobState → String → ℕ → ℕ → String → Store → Answer ℕ × Store
unfolding purge_batches
purge locked queue states confirm size batches actor s =
    if not (valid_name queue)
    then (throws validation_error, s)
    else if not (str_eq confirm queue)
    then (throws validation_error, s)
    else if leb (length states) 0
    then (throws validation_error, s)
    else (let (deleted, t) = purge_batches locked queue states size batches s.rows in
        (returns deleted, audit actor "queue.purge" (of_queue queue) (record s { rows = t })))

abbrev pub forget : String → List Cached → List Cached
forget queue [] = []
forget queue (c ∷ cache) =
    let rest = forget queue cache in if str_eq c.queue queue then rest else c ∷ rest

-- `setPaused`: the configuration, the client's cache and the audit log.
unfoldable pub set_paused :
    String
    → Bool
    → String
    → List QueueConfig × List Cached
    → Store
    → Answer (List QueueConfig × List Cached) × Store
unfolding set_queue_paused
set_paused queue paused actor (cs, cache) s =
    if not (valid_name queue) then (throws validation_error, s) else (
      returns (set_queue_paused queue paused cs, forget queue cache),
      audit actor (if paused then "queue.pause" else "queue.resume") (of_queue queue) s,
    )

-- `clampLimit`
unfoldable pub clamp_limit : ℕ → ℕ
clamp_limit limit = min (max 1 limit) 200

-- The client's `listJobs` and `listDeadJobs`.
unfoldable pub list_page : ListJobsParams → List Job → List Job
unfolding clamp_limit list_jobs
list_page p t = list_jobs (record p { limit = clamp_limit p.limit }) t

unfoldable pub list_dead_page : ListDeadParams → List Job → List Job
unfolding clamp_limit list_dead_jobs
list_dead_page p t = list_dead_jobs (record p { limit = clamp_limit p.limit }) t
