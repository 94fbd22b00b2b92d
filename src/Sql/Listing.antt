-- ===== src/Sql/Listing.antt =====
-- packages/core/src/sql/query.sql.ts: listings by cursor, and the configuration of queues.
pub mod Pause
use pgjobq.Base.{
  ℕ, String, Bool, true, false, ◌&&◌, Option, none, some, List, [], ◌∷◌, ltb, leb, ◌==◌, str_eq,
  if◌then◌else◌, where_, order_by, take,
}
use pgjobq.Types.{Job, JobState, DeadReason, QueueConfig, is_dead}
use pgjobq.StateMachine.{state_eq}

-- `$n IS NULL OR …`
abbrev pub unset_or {ℓ} : {A : Type ℓ} → Option A → (A → Bool) → Bool
unset_or none test = true
unset_or (some a) test = test a

-- A comparison with a column that may be NULL.
abbrev pub known_and {ℓ} : {A : Type ℓ} → Option A → (A → Bool) → Bool
known_and none test = false
known_and (some a) test = test a

pub record ListJobsParams : Type 0 where
  pub queue : Option String
  pub state : Option JobState
  pub type : Option String
  pub from : Option ℕ
  pub to : Option ℕ
  pub before_id : Option ℕ
  pub limit : ℕ

unfoldable pub listed : ListJobsParams → Job → Bool
listed p j =
    unset_or p.queue (λ q. str_eq j.queue q)
    && unset_or p.state (λ s. state_eq j.state s)
    && unset_or p.type (λ y. str_eq j.type y)
    && unset_or p.from (λ d. leb d j.enqueued_at)
    && unset_or p.to (λ d. leb j.enqueued_at d)
    && unset_or p.before_id (λ i. ltb j.id i)

unfoldable pub list_jobs : ListJobsParams → List Job → List Job
unfolding listed
list_jobs p t = take p.limit (order_by (λ j k. leb k.id j.id) (where_ (listed p) t))

abbrev pub dead_reason_eq : DeadReason → DeadReason → Bool
dead_reason_eq DeadReason.attempts_exhausted DeadReason.attempts_exhausted = true
dead_reason_eq DeadReason.lease_expired DeadReason.lease_expired = true
dead_reason_eq DeadReason.non_retryable_error DeadReason.non_retryable_error = true
dead_reason_eq DeadReason.cancelled DeadReason.cancelled = true
dead_reason_eq _ _ = false

pub record ListDeadParams : Type 0 where
  pub queue : Option String
  pub type : Option String
  pub reason : Option DeadReason
  pub from : Option ℕ
  pub to : Option ℕ
  pub before_id : Option ℕ
  pub limit : ℕ

unfoldable pub dead_listed : ListDeadParams → Job → Bool
dead_listed p j =
    is_dead j.state
    && unset_or p.queue (λ q. str_eq j.queue q)
    && unset_or p.type (λ y. str_eq j.type y)
    && unset_or p.reason (λ r. known_and j.dead_reason (λ s. dead_reason_eq s r))
    && unset_or p.from (λ d. known_and j.finished_at (λ f. leb d f))
    && unset_or p.to (λ d. known_and j.finished_at (λ f. leb f d))
    && unset_or p.before_id (λ i. ltb j.id i)

unfoldable pub list_dead_jobs : ListDeadParams → List Job → List Job
unfolding dead_listed
list_dead_jobs p t = take p.limit (order_by (λ j k. leb k.id j.id) (where_ (dead_listed p) t))

-- The row of a queue that had none: the defaults of the columns, a day and thirty days of retention.
unfoldable pub new_config : String → Bool → QueueConfig
new_config queue paused = record {
  queue = queue;
  paused = paused;
  max_attempts = none;
  lease_seconds = none;
  priority_aging = false;
  aging_threshold_s = none;
  concurrency_limit = none;
  retain_succeeded = 86400000;
  retain_dead = 2592000000;
}

-- `setQueuePaused`, an upsert on the queue's name.
unfoldable pub set_queue_paused : String → Bool → List QueueConfig → List QueueConfig
unfolding new_config
set_queue_paused queue paused [] = new_config queue paused ∷ []
set_queue_paused queue paused (c ∷ cs) =
    let rest = set_queue_paused queue paused cs in
    if str_eq c.queue queue then record c { paused = paused } ∷ cs else c ∷ rest

unfoldable pub get_queue_config : String → List QueueConfig → Option QueueConfig
get_queue_config queue [] = none
get_queue_config queue (c ∷ cs) =
    let rest = get_queue_config queue cs in if str_eq c.queue queue then some c else rest
