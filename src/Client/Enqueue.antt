-- ===== src/Client/Enqueue.antt =====
-- packages/core/src/client.ts, `enqueue` and `resolveConflict`.
pub mod Dedup
pub mod Twice
use pgjobq.Base.{
  ℕ, ◌+◌, ◌≡◌, String, Bool, true, false, ◌&&◌, not, Option, none, some, List, [], ◌∷◌, ◌++◌, map,
  where_, leb, ltb, str_eq, length, if◌then◌else◌,
}
use pgjobq.Types.{Job, QueueConfig}
use pgjobq.Table.{Result, ok, err, PgError}
use pgjobq.Sql.Enqueue.{
  EnqueueRow, Jobs, QueueDefaultsRow, insert_job, find_by_idempotency_key, find_by_unique_key,
}
use pgjobq.Client.{ClientError, validation_error, conflict, database_error, Answer, returns, throws}
use pgjobq.Client.Names.{valid_name}
use pgjobq.Client.Build.{
  EnqueueOptions, ClientDefaults, Cached, queue_defaults, asks_queue, build_row,
}

pub record EnqueueResult : Type 0 where
  pub id : ℕ
  pub deduplicated : Bool

-- What others do to the table before the n-th statement of the call.
abbrev pub Others : Type 0
Others = ℕ → Jobs → Jobs

-- `resolveConflict`: its lookups are the statements 1 and 2.
abbrev pub by_unique_key : String → Option String → List Job → Answer EnqueueResult
by_unique_key queue none t = throws (conflict none)
by_unique_key queue (some key) t = throws (conflict (find_by_unique_key queue key t))

abbrev pub by_idempotency_key : String → Option String → List Job → Option ℕ
by_idempotency_key queue none t = none
by_idempotency_key queue (some key) t = find_by_idempotency_key queue key t

abbrev pub deduplicated_or : Option ℕ → Answer EnqueueResult → Answer EnqueueResult
deduplicated_or none rest = rest
deduplicated_or (some id) rest = returns (record { id = id; deduplicated = true })

unfoldable pub resolve_conflict : Others → String → EnqueueRow → Jobs → Answer EnqueueResult × Jobs
resolve_conflict w queue r s =
    let s1 = w 1 s in
    let s2 = w 2 s1 in
    (
      deduplicated_or (by_idempotency_key queue r.idempotency_key s1.rows)
          (by_unique_key queue r.unique_key s2.rows),
      s2,
    )

-- What is made of the insertion into the table s.
abbrev pub insertion_answered :
    Others → String → EnqueueRow → Jobs → Result (Jobs × Option ℕ) → Answer EnqueueResult × Jobs
unfolding resolve_conflict
insertion_answered w queue r s (ok (s', some id)) =
    (returns (record { id = id; deduplicated = false }), s')
insertion_answered w queue r s (ok (s', none)) = resolve_conflict w queue r s'
insertion_answered w queue r s (err PgError.unique_violation) = resolve_conflict w queue r s
insertion_answered w queue r s (err PgError.check_violation) =
    (throws (database_error PgError.check_violation), s)

-- `enqueue` from its row on: the insertion is statement 0.
unfoldable pub enqueue_row : Others → ℕ → String → EnqueueRow → Jobs → Answer EnqueueResult × Jobs
unfolding resolve_conflict
enqueue_row w now queue r s = insertion_answered w queue r (w 0 s) (insert_job now r (w 0 s))

abbrev pub row_answered :
    (EnqueueRow → Jobs → Answer EnqueueResult × Jobs)
    → Jobs
    → Answer EnqueueRow
    → Answer EnqueueResult × Jobs
row_answered insert s (returns r) = insert r s
row_answered insert s (throws e) = (throws e, s)

-- `enqueue`: the answer and the table, and the client's cache. `client_now` is the process's clock,
-- `now` the database's.
unfoldable pub enqueue :
    Others
    → ClientDefaults
    → ℕ
    → ℕ
    → List QueueConfig
    → String
    → String
    → String
    → EnqueueOptions
    → List Cached
    → Jobs
    → (Answer EnqueueResult × Jobs) × List Cached
unfolding enqueue_row build_row queue_defaults asks_queue
enqueue w d client_now now cs queue type payload o cache s =
    let (qc, cache') = queue_defaults client_now cs queue cache in
    if valid_name queue && valid_name type
    then (
      row_answered (enqueue_row w now queue) s (build_row d qc client_now queue type payload o),
      if asks_queue d payload o then cache' else cache,
    )
    else ((throws validation_error, s), cache)
