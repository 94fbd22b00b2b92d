-- ===== src/Sql/Enqueue.antt =====
-- packages/core/src/sql/enqueue.sql.ts: insertion under the unique indexes, and its lookups.
pub mod Insert
use pgjobq.Base.{
  ℕ, ◌+◌, String, Bool, true, false, ◌&&◌, Option, none, some, List, [], ◌∷◌, ◌++◌, str_eq,
  if◌then◌else◌, any,
}
use pgjobq.Base.Int.{ℤ}
use pgjobq.Types.{Job, JobState, QueueConfig, is_active}
use pgjobq.Table.{Result, ok, err, PgError, check_row, clash, key_eq}

-- `payload` and `metadata` hold the serialised JSON.
pub record EnqueueRow : Type 0 where
  pub queue : String
  pub type : String
  pub payload : String
  pub metadata : Option String
  pub priority : ℤ
  pub max_attempts : ℕ
  pub lease_seconds : ℕ
  pub run_at : Option ℕ
  pub idempotency_key : Option String
  pub unique_key : Option String
  pub trace_context : Option String
  pub schedule_id : Option ℕ

-- The table with the sequence behind its identity column.
pub record Jobs : Type 0 where
  pub rows : List Job
  pub next_id : ℕ

abbrev pub coalesce {ℓ} : {A : Type ℓ} → Option A → A → A
coalesce none d = d
coalesce (some a) d = a

-- The row that VALUES and the column defaults give.
unfoldable pub new_job : ℕ → ℕ → EnqueueRow → Job
new_job now id r = record {
  id = id;
  queue = r.queue;
  type = r.type;
  state = JobState.available;
  payload = r.payload;
  metadata = r.metadata;
  priority = r.priority;
  attempt = 0;
  max_attempts = r.max_attempts;
  lease_seconds = r.lease_seconds;
  run_at = coalesce r.run_at now;
  enqueued_at = now;
  started_at = none;
  finished_at = none;
  lease_expires_at = none;
  cancel_requested_at = none;
  worker_id = none;
  idempotency_key = r.idempotency_key;
  unique_key = r.unique_key;
  dead_reason = none;
  errors = [];
  trace_context = r.trace_context;
  schedule_id = r.schedule_id;
  updated_at = now;
}

-- One row under ON CONFLICT DO NOTHING RETURNING id. The sequence moves on in any case.
unfoldable pub insert_job : ℕ → EnqueueRow → Jobs → Result (Jobs × Option ℕ)
unfolding new_job
insert_job now r s =
    let j = new_job now s.next_id r in
    if check_row j
    then (if any (clash j) s.rows
        then ok (record s { next_id = s.next_id + 1 }, none)
        else ok (record { rows = s.rows ++ j ∷ []; next_id = s.next_id + 1 }, some s.next_id))
    else err PgError.check_violation

unfoldable pub find_by_idempotency_key : String → String → List Job → Option ℕ
find_by_idempotency_key q key [] = none
find_by_idempotency_key q key (j ∷ t) =
    let rest = find_by_idempotency_key q key t in
    if str_eq j.queue q && key_eq j.idempotency_key (some key) then some j.id else rest

unfoldable pub find_by_unique_key : String → String → List Job → Option ℕ
find_by_unique_key q key [] = none
find_by_unique_key q key (j ∷ t) =
    let rest = find_by_unique_key q key t in
    if str_eq j.queue q && key_eq j.unique_key (some key) && is_active j.state
    then some j.id
    else rest

pub record QueueDefaultsRow : Type 0 where
  pub paused : Bool
  pub max_attempts : Option ℕ
  pub lease_seconds : Option ℕ
  pub priority_aging : Bool
  pub aging_threshold_s : Option ℕ
  pub concurrency_limit : Option ℕ

-- The LEFT JOIN gives a row for a queue that has no configuration too.
unfoldable pub resolve_queue_defaults : String → List QueueConfig → QueueDefaultsRow
resolve_queue_defaults q [] = record {
  paused = false;
  max_attempts = none;
  lease_seconds = none;
  priority_aging = false;
  aging_threshold_s = none;
  concurrency_limit = none;
}
resolve_queue_defaults q (c ∷ cs) =
    let rest = resolve_queue_defaults q cs in
    if str_eq c.queue q
    then record {
      paused = c.paused;
      max_attempts = c.max_attempts;
      lease_seconds = c.lease_seconds;
      priority_aging = c.priority_aging;
      aging_threshold_s = c.aging_threshold_s;
      concurrency_limit = c.concurrency_limit;
    }
    else rest

abbrev pub with_inserted : List Job → Option ℕ → Job → List Job
with_inserted out none j = out
with_inserted out (some id) j = out ++ j ∷ []

abbrev pub then_insert :
    (List Job → Jobs → Result (Jobs × List Job))
    → List Job
    → Job
    → Result (Jobs × Option ℕ)
    → Result (Jobs × List Job)
then_insert rest out j (ok (s', id)) = rest (with_inserted out id j) s'
then_insert rest out j (err e) = err e

-- `insertJobsBatch`: the rows in their order, under the same ON CONFLICT, and the jobs inserted. A
-- check that fails takes the whole statement back.
unfoldable pub insert_jobs_batch : ℕ → List EnqueueRow → List Job → Jobs → Result (Jobs × List Job)
insert_jobs_batch now [] out s = ok (s, out)
insert_jobs_batch now (r ∷ rs) out s =
    then_insert (insert_jobs_batch now rs) out (new_job now s.next_id r) (insert_job now r s)
