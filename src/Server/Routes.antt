-- ===== src/Server/Routes.antt =====
-- packages/server/src/routes.ts, and the schemas of schemas.ts that it validates by: a request goes
-- through the key, the scope and the validation to a call of the client.

use Prim.Native.String
pub mod ById
pub mod Paging
pub mod Handling
pub mod Guarding
use pgjobq.Base.{
  String, ℕ, ◌+◌, Bool, true, false, ◌&&◌, not, Option, none, some, List, [], ◌∷◌, all, leb, ltb,
  ◌==◌, str_eq, length, if◌then◌else◌,
}
use pgjobq.Base.Int.{ℤ, pos, negsuc, ltb_ℤ}
use pgjobq.Base.Text.{utf16_length}
use pgjobq.Types.{Job, JobState, QueueConfig}
use pgjobq.Table.{Elsewhere}
use pgjobq.Sql.Enqueue.{Jobs}
use pgjobq.Sql.Query.{get_job}
use pgjobq.Sql.Listing.{ListJobsParams, ListDeadParams, get_queue_config}
use pgjobq.Client.{
  ClientError, validation_error, payload_too_large, conflict, job_not_found, invalid_transition,
  database_error, Answer, returns, throws,
}
use pgjobq.Client.Names.{valid_name}
use pgjobq.Client.Build.{EnqueueOptions, ClientDefaults, Cached, queue_defaults}
use pgjobq.Client.Batch.{BatchEnqueueItem, BatchResult, batch_asks, enqueue_batch}
use pgjobq.Client.Enqueue.{EnqueueResult, Others, enqueue}
use pgjobq.Client.Admin.{
  Store, CancelResult, Replays, cancel, retry_now, replay, replay_many, purge, set_paused,
  list_page, list_dead_page, found_or_missing,
}
use pgjobq.Server.Calls.{
  Call, enqueues, reads_job, reads_queues, lists_jobs, reads_config, cancels, retries, replays,
  pauses, resumes, purges, lists_dead, replays_many, enqueues_batch, schedules, scope_for,
  queue_from, valid_call,
}
use pgjobq.Server.Auth.{Scope, ApiKeyRow, ApiKeyRecord, covers}
use pgjobq.Server.Reply.{
  ErrorClass, ErrorCode, Raised, domain, ErrorReply, error_handler, forbidden,
}
use pgjobq.Client.Stats.{Overview, queue_lag, stats, overview}
use pgjobq.Engine.Scheduler.Management.{ScheduleTable}
use pgjobq.Server.Schedules.{Board, ScheduleBody, ScheduleCall, Planner, handle_schedule}
use pgjobq.Server.Access.{Gate, denies, passes, ◌>>=◌, require_auth, require_scope}

-- What the calls act on.
pub record Site : Type 0 where
  pub store : Store
  pub next_id : ℕ
  pub configs : List QueueConfig
  pub cache : List Cached
  pub schedules : ScheduleTable

-- The clocks, the other processes, the scheduler, the client's settings and the texts, for one request;
-- and whether the rate limiter, which counts by the key's id, lets it through.
pub record Surroundings : Type 0 where
  pub elsewhere : Elsewhere
  pub others : Others
  pub locked : ℕ → ℕ → Bool
  pub tables : ℕ → List Job
  pub planner : Planner
  pub now : ℕ
  pub client_now : ℕ
  pub defaults : ClientDefaults
  pub message : ClientError → String
  pub details : ClientError → Option String
  pub problems : Call → String
  pub lacks : Scope → Option String → String
  pub within_rate : ℕ → Bool

pub data Body : Type 0 where
  enqueued : EnqueueResult → Body
  job : Job → Body
  page : List Job → Option ℕ → Body
  config : String → Option QueueConfig → Body
  cancelled : CancelResult → Body
  paused : String → Bool → Body
  purged : String → ℕ → Body
  replayed : Replays → Body
  batch : List BatchResult → Body
  schedule : ScheduleBody → Body
  queues : List Overview → Body

pub data Reply : Type 0 where
  failure : ErrorReply → Reply
  success : ℕ → Body → Reply

unfoldable pub class_of : ClientError → ErrorClass
class_of validation_error = ErrorClass.validation
class_of (payload_too_large a b) = ErrorClass.payload_size
class_of (conflict i) = ErrorClass.conflicting
class_of (job_not_found i) = ErrorClass.missing_job
class_of (invalid_transition i) = ErrorClass.transition
class_of (database_error e) = ErrorClass.database

-- An answer of the client, or what the error handler makes of what it threw.
abbrev pub answered {ℓ} : {A : Type ℓ} → Surroundings → (A → Reply) → Answer A → Reply
unfolding error_handler class_of
answered w reply (returns a) = reply a
answered w reply (throws e) = failure (
    error_handler
      (domain (record { class = class_of e; message = w.message e; details = w.details e })))

-- `page`: the cursor is the last id, if the page is full.
unfoldable pub last_id : List Job → Option ℕ
last_id [] = none
last_id (j ∷ []) = some j.id
last_id (j ∷ k ∷ jobs) = last_id (k ∷ jobs)

unfoldable pub next_cursor : List Job → ℕ → Option ℕ
unfolding last_id
next_cursor jobs limit = if length jobs == limit then last_id jobs else none

abbrev pub not_covered : ErrorReply
not_covered = record {
  status = 403;
  code = forbidden;
  message = "This key does not cover the requested resource";
  details = none;
}

-- `actorOf`
abbrev pub actor_of : ApiKeyRecord → String
actor_of k = String.◌++◌ "key:" k.name

-- The route of a job's id shows it to a key of its queue only.
abbrev pub shown : ApiKeyRecord → Job → Reply
shown k j = if covers k.queues (some j.queue) then success 200 (job j) else failure not_covered

abbrev pub with_store {ℓ} : {A : Type ℓ} → Site → (A → Reply) → A × Store → Reply × Site
with_store s reply (a, store) = (reply a, record s { store = store })

abbrev pub after_enqueue :
    Surroundings → Site → (Answer EnqueueResult × Jobs) × List Cached → Reply × Site
unfolding error_handler class_of
after_enqueue w s ((a, jobs), cache) = (
  answered w (λ r. success (if r.deduplicated then 200 else 201) (enqueued r)) a,
  record s { store = record s.store { rows = jobs.rows }; next_id = jobs.next_id; cache = cache },
)

abbrev pub after_pause :
    Surroundings
    → Site
    → String
    → Bool
    → Answer (List QueueConfig × List Cached) × Store
    → Reply × Site
unfolding error_handler class_of
after_pause w s q p (throws e, store) =
    (answered w (λ (b : Body). success 200 b) (throws e), record s { store = store })
after_pause w s q p (returns (configs, cache), store) =
    (success 200 (paused q p), record s { store = store; configs = configs; cache = cache })

abbrev pub after_batch :
    Surroundings → Site → List Cached → Answer (List BatchResult) × Jobs → Reply × Site
unfolding error_handler class_of
after_batch w s cache (a, jobs) = (
  answered w (λ r. success 201 (batch r)) a,
  record s { store = record s.store { rows = jobs.rows }; next_id = jobs.next_id; cache = cache },
)

-- A queue's defaults come out of the cache, or into it if they are asked for.
abbrev pub batched : Surroundings → Site → String → List BatchEnqueueItem → Reply × Site
unfolding enqueue_batch queue_defaults batch_asks error_handler class_of
batched w s q items =
    let (qc, cache) = queue_defaults w.client_now s.configs q s.cache in
    after_batch w s (if batch_asks w.defaults items then cache else s.cache) (
      enqueue_batch w.defaults qc w.client_now w.now q w.tables items
        (record { rows = s.store.rows; next_id = s.next_id }))

abbrev pub schedule_status : ScheduleBody → ℕ
schedule_status (ScheduleBody.listed ss) = 200
schedule_status (ScheduleBody.created s) = 201
schedule_status (ScheduleBody.shown s) = 200
schedule_status ScheduleBody.deleted = 204

abbrev pub after_schedule : Site → Gate ScheduleBody × Board → Reply × Site
after_schedule s (denies e, b) = (failure e, record s { schedules = b.schedules; store = b.store })
after_schedule s (passes r, b) = (
  success (schedule_status r) (schedule r),
  record s { schedules = b.schedules; store = b.store },
)

-- The handlers.
unfoldable pub handle : Surroundings → ApiKeyRecord → Call → Site → Reply × Site
unfolding cancel retry_now replay replay_many purge set_paused list_page list_dead_page next_cursor
    enqueue get_job get_queue_config error_handler class_of enqueue_batch queue_defaults batch_asks
    handle_schedule stats queue_lag overview
handle w k (enqueues q y p o) s = after_enqueue w s (
    enqueue w.others w.defaults w.client_now w.now s.configs q y p o s.cache
      (record { rows = s.store.rows; next_id = s.next_id }))
handle w k (enqueues_batch q items) s = batched w s q items
handle w k (schedules c) s =
    after_schedule s (
      handle_schedule w.planner (actor_of k) c
        (record { schedules = s.schedules; store = s.store }))
handle w k reads_queues s =
    (success 200 (queues (overview w.now (queue_lag w.now s.store.rows) (stats s.store.rows))), s)
handle w k (reads_job id) s =
    (answered w (shown k) (found_or_missing id (get_job id s.store.rows)), s)
handle w k (lists_jobs q p) s =
    let jobs = list_page (record p { queue = some q }) s.store.rows in
    (success 200 (page jobs (next_cursor jobs p.limit)), s)
handle w k (reads_config q) s = (success 200 (config q (get_queue_config q s.configs)), s)
handle w k (cancels id) s =
    with_store s (answered w (λ r. success (if r.1 then 200 else 202) (cancelled r)))
      (cancel w.elsewhere id (actor_of k) s.store)
handle w k (retries id) s =
    with_store s (answered w (λ j. success 200 (job j)))
      (retry_now w.elsewhere id (actor_of k) s.store)
handle w k (replays id) s =
    with_store s (answered w (λ j. success 200 (job j)))
      (replay w.elsewhere id (actor_of k) s.store)
handle w k (pauses q) s =
    after_pause w s q true (set_paused q true (actor_of k) (s.configs, s.cache) s.store)
handle w k (resumes q) s =
    after_pause w s q false (set_paused q false (actor_of k) (s.configs, s.cache) s.store)
handle w k (purges q states confirm) s =
    with_store s (answered w (λ n. success 200 (purged q n)))
      (purge w.locked q states confirm 1000 1000 (actor_of k) s.store)
handle w k (lists_dead p) s =
    let jobs = list_dead_page p s.store.rows in
    (success 200 (page jobs (next_cursor jobs p.limit)), s)
handle w k (replays_many ids) s =
    with_store s (answered w (λ r. success 200 (replayed r)))
      (replay_many w.now ids (actor_of k) s.store)

-- Its message counts the problems.
abbrev pub invalid_request : String → ErrorReply
invalid_request problems = record {
  status = 400;
  code = ErrorCode.validation_error;
  message = "Request validation failed";
  details = some problems;
}

-- `validate`
unfoldable pub validate : Surroundings → Call → ApiKeyRecord → Gate ApiKeyRecord
unfolding valid_call
validate w c k = if valid_call c then passes k else denies (invalid_request (w.problems c))

abbrev pub enter : Surroundings → Call → Site → Gate ApiKeyRecord → Reply × Site
unfolding handle
enter w c s (denies r) = (failure r, s)
enter w c s (passes k) = handle w k c s

pub record Request : Type 0 where
  pub authorization : Option String
  pub call : Call

-- The middleware of a route, and its handler.
unfoldable pub route : Surroundings → Call → Site → ApiKeyRecord → Reply × Site
unfolding require_scope validate scope_for queue_from handle
route w c s k =
    enter w c s (do k' ← require_scope w.lacks (scope_for c) (queue_from c) k; validate w c k')

-- The answer of the rate limiter's handler.
abbrev pub too_many : ErrorReply
too_many = record {
  status = 429;
  code = ErrorCode.rate_limited;
  message = "Too many requests; slow down and retry";
  details = none;
}

-- After `requireAuth`: the rate limiter, and the routes.
abbrev pub routed : Surroundings → Call → Site → Gate ApiKeyRecord → Reply × Site
unfolding route
routed w c s (denies r) = (failure r, s)
routed w c s (passes k) = if w.within_rate k.id then route w c s k else (failure too_many, s)

-- A request under /v1, to any route but GET /events.
module _ (hash_key : String → String) (keys : List ApiKeyRow) where
  unfoldable pub serve : Surroundings → Request → Site → Reply × Site
  unfolding require_auth route
  serve w r s = routed w r.call s (require_auth hash_key w.client_now keys r.authorization)
