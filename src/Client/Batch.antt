-- ===== src/Client/Batch.antt =====
-- packages/core/src/client.ts, `enqueueBatch`: the rows that went in are matched with the requests.
pub mod Shift
use pgjobq.Base.{
  ℕ, ◌+◌, ◌≡◌, String, Bool, true, false, ◌&&◌, not, Option, none, some, List, [], ◌∷◌, ◌++◌, map,
  where_, ltb, leb, length, if◌then◌else◌,
}
use pgjobq.Types.{Job}
use pgjobq.Table.{Result, ok, err, is_some, key_eq}
use pgjobq.Sql.Enqueue.{
  EnqueueRow, Jobs, QueueDefaultsRow, insert_jobs_batch, find_by_idempotency_key,
}
use pgjobq.Client.{ClientError, validation_error, database_error, Answer, returns, throws}
use pgjobq.Client.Names.{valid_name}
use pgjobq.Client.Build.{EnqueueOptions, ClientDefaults, asks_queue, build_row}

pub record BatchEnqueueItem : Type 0 where
  pub type : String
  pub payload : String
  pub options : EnqueueOptions

-- An id that is not known is the empty text in the source, and none here.
pub record BatchResult : Type 0 where
  pub id : Option ℕ
  pub deduplicated : Bool

abbrev pub added_row : Answer EnqueueRow → Answer (List EnqueueRow) → Answer (List EnqueueRow)
added_row (returns r) (returns rs) = returns (r ∷ rs)
added_row (throws e) rs = throws validation_error
added_row (returns r) (throws e) = throws e

-- Every item is validated before the statement; any error is reported as a validation error.
unfoldable pub batch_rows :
    ClientDefaults
    → QueueDefaultsRow
    → ℕ
    → String
    → List BatchEnqueueItem
    → Answer (List EnqueueRow)
unfolding build_row
batch_rows d qc now queue [] = returns []
batch_rows d qc now queue (i ∷ items) =
    let rest = batch_rows d qc now queue items in
    if valid_name i.type
    then added_row (build_row d qc now queue i.type i.payload i.options) rest
    else throws validation_error

-- `byIdem.get`: the last row of the answer that has the key.
unfoldable pub by_idem : String → List Job → Option ℕ
by_idem key [] = none
by_idem key (j ∷ js) = elim (by_idem key js) [
  | some id ↦ some id
  | none ↦ if key_eq j.idempotency_key (some key) then some j.id else none
]

unfoldable pub unkeyed : List Job → List ℕ
unkeyed js = map (λ (j : Job). j.id) (where_ (λ (j : Job). not (is_some j.idempotency_key)) js)

abbrev pub keyed_answer : Option ℕ → Option ℕ → BatchResult
keyed_answer none existing = record { id = existing; deduplicated = true }
keyed_answer (some id) existing = record { id = some id; deduplicated = false }

-- The loop over the requests: `ids` are the ids of rows without a key that are not given out yet, and
-- `tables n` is what the lookup for the n-th request from here sees.
unfoldable pub batch_answers :
    String → List Job → (ℕ → List Job) → List ℕ → List EnqueueRow → List BatchResult
batch_answers queue inserted tables ids [] = []
batch_answers queue inserted tables ids (r ∷ rs) = elim r.idempotency_key [
  | some key ↦
      keyed_answer (by_idem key inserted) (find_by_idempotency_key queue key (tables 0))
      ∷ batch_answers queue inserted (λ n. tables (n + 1)) ids rs
  | none ↦ elim ids [
    | [] ↦
        record { id = none; deduplicated = false }
        ∷ batch_answers queue inserted (λ n. tables (n + 1)) [] rs
    | id ∷ ids' ↦
        record { id = some id; deduplicated = false }
        ∷ batch_answers queue inserted (λ n. tables (n + 1)) ids' rs
  ]
]

abbrev pub batch_answered :
    String
    → (ℕ → List Job)
    → List EnqueueRow
    → Jobs
    → Result (Jobs × List Job)
    → Answer (List BatchResult) × Jobs
unfolding batch_answers unkeyed
batch_answered queue tables rows s (ok (s', inserted)) =
    (returns (batch_answers queue inserted tables (unkeyed inserted) rows), s')
batch_answered queue tables rows s (err e) = (throws (database_error e), s)

-- The statement, and the loop.
unfoldable pub enqueue_rows :
    ℕ → String → (ℕ → List Job) → List EnqueueRow → Jobs → Answer (List BatchResult) × Jobs
unfolding insert_jobs_batch
enqueue_rows now queue tables rows s =
    batch_answered queue tables rows s (insert_jobs_batch now rows [] s)

abbrev pub rows_answered :
    (List EnqueueRow → Jobs → Answer (List BatchResult) × Jobs)
    → Jobs
    → Answer (List EnqueueRow)
    → Answer (List BatchResult) × Jobs
rows_answered insert s (returns rows) = insert rows s
rows_answered insert s (throws e) = (throws e, s)

unfoldable pub enqueue_batch :
    ClientDefaults
    → QueueDefaultsRow
    → ℕ
    → ℕ
    → String
    → (ℕ → List Job)
    → List BatchEnqueueItem
    → Jobs
    → Answer (List BatchResult) × Jobs
unfolding enqueue_rows batch_rows
enqueue_batch d qc client_now now queue tables items s =
    if not (valid_name queue)
    then (throws validation_error, s)
    else if leb (length items) 0
    then (returns [], s)
    else if ltb 1000 (length items)
    then (throws validation_error, s)
    else rows_answered (enqueue_rows now queue tables) s (batch_rows d qc client_now queue items)

-- Whether the loop over the items comes to ask for the queue's defaults: with the first item or not at
-- all.
unfoldable pub batch_asks : ClientDefaults → List BatchEnqueueItem → Bool
unfolding asks_queue
batch_asks d [] = false
batch_asks d (i ∷ items) = valid_name i.type && asks_queue d i.payload i.options
