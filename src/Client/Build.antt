-- ===== src/Client/Build.antt =====
-- packages/core/src/client.ts, `buildRow` and `queueDefaults`: the row of an enqueue, and where its
-- settings come from.
use Prim.Native.String.{len}
use pgjobq.Base.{
  not, ℕ, ◌+◌, ◌-◌, ◌*◌, String, Bool, true, false, ◌&&◌, Option, none, some, List, [], ◌∷◌, ltb,
  str_eq, if◌then◌else◌,
}
use pgjobq.Base.Int.{ℤ, pos, negsuc, ltb_ℤ}
use pgjobq.Types.{QueueConfig}
use pgjobq.Sql.Enqueue.{EnqueueRow, QueueDefaultsRow, resolve_queue_defaults, coalesce}
use pgjobq.Client.{validation_error, payload_too_large, Answer, returns, throws}

-- A date is its time, or invalid; a delay is a whole number of seconds.
pub record EnqueueOptions : Type 0 where
  pub priority : Option ℤ
  pub run_at : Option (Option ℕ)
  pub delay_seconds : Option ℤ
  pub max_attempts : Option ℕ
  pub lease_seconds : Option ℕ
  pub idempotency_key : Option String
  pub unique_key : Option String
  pub metadata : Option String
  pub trace_context : Option String

pub record ClientDefaults : Type 0 where
  pub max_attempts : ℕ
  pub lease_seconds : ℕ
  pub max_payload_bytes : ℕ

-- `DEFAULTS`
abbrev pub default_settings : ClientDefaults
default_settings = record { max_attempts = 5; lease_seconds = 30; max_payload_bytes = 262144 }

-- An entry of `queueCache`.
pub record Cached : Type 0 where
  pub queue : String
  pub at : ℕ
  pub row : QueueDefaultsRow

unfoldable pub cache_get : String → List Cached → Option Cached
cache_get queue [] = none
cache_get queue (c ∷ cache) =
    let rest = cache_get queue cache in if str_eq c.queue queue then some c else rest

unfoldable pub cache_set : Cached → List Cached → List Cached
cache_set c [] = c ∷ []
cache_set c (d ∷ cache) =
    let rest = cache_set c cache in if str_eq d.queue c.queue then c ∷ cache else d ∷ rest

abbrev pub is_fresh : ℕ → Option Cached → Bool
is_fresh now none = false
is_fresh now (some c) = ltb (now - c.at) 5000

abbrev pub cached_row : Option Cached → QueueDefaultsRow → QueueDefaultsRow
cached_row none row = row
cached_row (some c) row = c.row

-- `queueDefaults`: the row, and the cache after.
unfoldable pub queue_defaults :
    ℕ → List QueueConfig → String → List Cached → QueueDefaultsRow × List Cached
queue_defaults now cs queue cache =
    let cached = cache_get queue cache in
    let row = resolve_queue_defaults queue cs in
    if is_fresh now cached
    then (cached_row cached row, cache)
    else (row, cache_set (record { queue = queue; at = now; row = row }) cache)

abbrev pub or_else {ℓ} : {A : Type ℓ} → Option A → Option A → Option A
or_else none o = o
or_else (some a) o = some a

abbrev pub is_given {ℓ} : {A : Type ℓ} → Option A → Bool
is_given none = false
is_given (some a) = true

abbrev pub is_negative : Option ℤ → Bool
is_negative none = false
is_negative (some d) = ltb_ℤ d (pos 0)

abbrev pub is_invalid_date : Option (Option ℕ) → Bool
is_invalid_date (some none) = true
is_invalid_date _ = false

-- Null stands for the database's now.
unfoldable pub start_time : ℕ → EnqueueOptions → Option ℕ
start_time now o = elim o.run_at [
  | some date ↦ date
  | none ↦ elim o.delay_seconds [
    | some (pos d) ↦ if ltb 0 d then some (now + d * 1000) else none
    | some (negsuc d) ↦ none
    | none ↦ none
  ]
]

unfoldable pub settled_attempts : ClientDefaults → QueueDefaultsRow → EnqueueOptions → ℕ
settled_attempts d qc o = coalesce (or_else o.max_attempts qc.max_attempts) d.max_attempts

unfoldable pub settled_lease : ClientDefaults → QueueDefaultsRow → EnqueueOptions → ℕ
settled_lease d qc o = coalesce (or_else o.lease_seconds qc.lease_seconds) d.lease_seconds

-- Whether `buildRow` comes to ask for the queue's defaults.
unfoldable pub asks_queue : ClientDefaults → String → EnqueueOptions → Bool
asks_queue d payload o =
    not (ltb d.max_payload_bytes (len payload))
    && not (is_given o.run_at && is_given o.delay_seconds)
    && not (is_negative o.delay_seconds)

-- `buildRow`, on the serialised payload, the queue's defaults and the client's clock.
unfoldable pub build_row :
    ClientDefaults
    → QueueDefaultsRow
    → ℕ
    → String
    → String
    → String
    → EnqueueOptions
    → Answer EnqueueRow
build_row d qc now queue type payload o =
    if ltb d.max_payload_bytes (len payload)
    then throws (payload_too_large (len payload) d.max_payload_bytes)
    else if is_given o.run_at && is_given o.delay_seconds
    then throws validation_error
    else if is_negative o.delay_seconds
    then throws validation_error
    else if ltb (settled_attempts d qc o) 1
    then throws validation_error
    else if ltb (settled_lease d qc o) 1
    then throws validation_error
    else if is_invalid_date o.run_at
    then throws validation_error
    else returns (record {
      queue = queue;
      type = type;
      payload = payload;
      metadata = o.metadata;
      priority = coalesce o.priority (pos 0);
      max_attempts = settled_attempts d qc o;
      lease_seconds = settled_lease d qc o;
      run_at = start_time now o;
      idempotency_key = o.idempotency_key;
      unique_key = o.unique_key;
      trace_context = o.trace_context;
      schedule_id = none;
    })
