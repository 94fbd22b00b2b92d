-- ===== src/Server/Calls.antt =====
-- packages/server/src/routes.ts and schemas.ts: the requests under /v1, with their scopes and schemas.
use pgjobq.Base.{
  String, ℕ, Bool, true, false, ◌&&◌, not, Option, none, some, List, all, leb, length,
}
use pgjobq.Base.Int.{ℤ, pos, negsuc, ltb_ℤ}
use pgjobq.Base.Text.{utf16_length}
use pgjobq.Types.{JobState}
use pgjobq.Sql.Listing.{ListJobsParams, ListDeadParams}
use pgjobq.Client.Names.{valid_name}
use pgjobq.Client.Build.{EnqueueOptions}
use pgjobq.Client.Batch.{BatchEnqueueItem}
use pgjobq.Server.Auth.{Scope, read, admin}
use pgjobq.Server.Schedules.{ScheduleCall}

-- The routes, with the parts of the request that they read. An id is the number that its digits say.
pub data Call : Type 0 where
  enqueues : String → String → String → EnqueueOptions → Call
  reads_job : ℕ → Call
  lists_jobs : String → ListJobsParams → Call
  reads_config : String → Call
  cancels retries replays : ℕ → Call
  pauses resumes : String → Call
  purges : String → List JobState → String → Call
  lists_dead : ListDeadParams → Call
  replays_many : List ℕ → Call
  reads_queues : Call
  enqueues_batch : String → List BatchEnqueueItem → Call
  schedules : ScheduleCall → Call

-- The scope of `requireScope`, and the queue that it finds in the request.
abbrev pub schedule_scope : ScheduleCall → Scope
schedule_scope ScheduleCall.lists = read
schedule_scope (ScheduleCall.shows id) = read
schedule_scope _ = admin

abbrev pub schedule_queue : ScheduleCall → Option String
schedule_queue (ScheduleCall.creates p) = some p.queue
schedule_queue _ = none

unfoldable pub scope_for : Call → Scope
scope_for (enqueues q y p o) = Scope.enqueue
scope_for (enqueues_batch q items) = Scope.enqueue
scope_for (reads_job id) = read
scope_for reads_queues = read
scope_for (lists_jobs q p) = read
scope_for (reads_config q) = read
scope_for (lists_dead p) = read
scope_for (schedules c) = schedule_scope c
scope_for _ = admin

unfoldable pub queue_from : Call → Option String
queue_from (enqueues q y p o) = some q
queue_from (enqueues_batch q items) = some q
queue_from (schedules c) = schedule_queue c
queue_from (lists_jobs q p) = some q
queue_from (reads_config q) = some q
queue_from (pauses q) = some q
queue_from (resumes q) = some q
queue_from (purges q states confirm) = some q
queue_from (lists_dead p) = p.queue
queue_from _ = none

abbrev pub unset_or_valid {ℓ} : {A : Type ℓ} → (A → Bool) → Option A → Bool
unset_or_valid test none = true
unset_or_valid test (some a) = test a

abbrev pub within : ℕ → ℕ → ℕ → Bool
within low high n = leb low n && leb n high

abbrev pub is_key : String → Bool
unfolding utf16_length
is_key s = within 1 255 (utf16_length s)

abbrev pub set_twice : Option (Option ℕ) → Option ℤ → Bool
set_twice (some r) (some d) = true
set_twice _ _ = false

abbrev pub is_date : Option ℕ → Bool
is_date none = false
is_date (some t) = true

-- `enqueueOptionsSchema`; metadata is JSON already, and the trace comes from a header.
unfoldable pub valid_options : EnqueueOptions → Bool
unfolding utf16_length
valid_options o =
    unset_or_valid (λ p. not (ltb_ℤ p (negsuc 32767)) && not (ltb_ℤ (pos 32767) p)) o.priority
    && unset_or_valid is_date o.run_at
    && unset_or_valid (λ d. not (ltb_ℤ d (pos 0)) && not (ltb_ℤ (pos 31536000) d)) o.delay_seconds
    && unset_or_valid (within 1 1000) o.max_attempts
    && unset_or_valid (within 1 86400) o.lease_seconds
    && unset_or_valid is_key o.idempotency_key
    && unset_or_valid is_key o.unique_key
    && not (set_twice o.run_at o.delay_seconds)

abbrev pub valid_item : BatchEnqueueItem → Bool
unfolding valid_options
valid_item i = valid_name i.type && valid_options i.options

abbrev pub valid_schedule : ScheduleCall → Bool
unfolding utf16_length
valid_schedule (ScheduleCall.creates p) =
    valid_name p.name
    && valid_name p.queue
    && valid_name p.type
    && within 1 255 (utf16_length p.cron)
    && unset_or_valid (λ z. within 1 64 (utf16_length z)) p.timezone
valid_schedule _ = true

-- The schemas of the path, the query and the body.
unfoldable pub valid_call : Call → Bool
unfolding valid_options
valid_call (enqueues q y p o) = valid_name q && valid_name y && valid_options o
valid_call (lists_jobs q p) =
    valid_name q && unset_or_valid valid_name p.type && within 1 200 p.limit
valid_call (reads_config q) = valid_name q
valid_call (pauses q) = valid_name q
valid_call (resumes q) = valid_name q
valid_call (purges q states confirm) =
    valid_name q && leb 1 (length states) && leb 1 (utf16_length confirm)
valid_call (lists_dead p) =
    unset_or_valid valid_name p.queue && unset_or_valid valid_name p.type && within 1 200 p.limit
valid_call (enqueues_batch q items) =
    valid_name q && within 1 1000 (length items) && all valid_item items
valid_call (schedules c) = valid_schedule c
valid_call (replays_many ids) = within 1 1000 (length ids)
valid_call _ = true
