-- ===== src/Client/Batch/Shift.antt =====
-- Client.Batch: a batch whose rows have unique keys and no idempotency keys.
use pgjobq.Base.{
  ℕ, ◌+◌, ◌≡◌, refl, true, false, String, none, some, List, [], ◌∷◌, ◌++◌, any, where_,
}
use pgjobq.Types.{Job}
use pgjobq.Table.{ok, check_row, clash}
use pgjobq.Sql.Enqueue.{EnqueueRow, Jobs, new_job, insert_job, insert_jobs_batch}
use pgjobq.Client.{returns}
use pgjobq.Client.Batch.{unkeyed, batch_answers, enqueue_rows}

inserted :
    (now : ℕ) (r : EnqueueRow) (s : Jobs)
    → check_row (new_job now s.next_id r) ≡ true
    → any (clash (new_job now s.next_id r)) s.rows ≡ false
    → insert_job now r s
      ≡ ok (
        record { rows = s.rows ++ new_job now s.next_id r ∷ []; next_id = s.next_id + 1 },
        some s.next_id,
      )
unfolding insert_job
inserted now r s c f = rw (c, f) refl

rejected :
    (now : ℕ) (r : EnqueueRow) (s : Jobs)
    → check_row (new_job now s.next_id r) ≡ true
    → any (clash (new_job now s.next_id r)) s.rows ≡ true
    → insert_job now r s ≡ ok (record s { next_id = s.next_id + 1 }, none)
unfolding insert_job
rejected now r s c f = rw (c, f) refl

-- A batch of two requests without idempotency keys, of which the first is refused for its unique key and the
-- second goes in: the first is told the id of the second's job, as one that it created, and the second
-- is told no id.
pub enqueue_rows_shifts :
    (now : ℕ) (queue : String) (tables : ℕ → List Job) (r r' : EnqueueRow) (s : Jobs)
    → r.idempotency_key ≡ none
    → r'.idempotency_key ≡ none
    → check_row (new_job now s.next_id r) ≡ true
    → any (clash (new_job now s.next_id r)) s.rows ≡ true
    → check_row (new_job now (s.next_id + 1) r') ≡ true
    → any (clash (new_job now (s.next_id + 1) r')) s.rows ≡ false
    → enqueue_rows now queue tables (r ∷ r' ∷ []) s ≡ (
      returns (
          record { id = some (s.next_id + 1); deduplicated = false }
          ∷ record { id = none; deduplicated = false }
          ∷ []),
      record { rows = s.rows ++ new_job now (s.next_id + 1) r' ∷ []; next_id = s.next_id + 1 + 1 },
    )
unfolding enqueue_rows insert_jobs_batch batch_answers unkeyed where_ new_job
enqueue_rows_shifts now queue tables r r' s n n' c f c' f' =
    simp (rejected now r s c f, inserted now r' (record s { next_id = s.next_id + 1 }) c' f', n, n')
      refl
