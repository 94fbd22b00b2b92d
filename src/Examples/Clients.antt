-- ===== src/Examples/Clients.antt =====
-- Client calls at concrete tables.
use pgjobq.Base.{◌≡◌, refl, inl, true, false, none, some, [], ◌∷◌, any, where_}
use pgjobq.Types.{Job, JobState}
use pgjobq.Table.{check_row, clash}
use pgjobq.Sql.Enqueue.{EnqueueRow, Jobs, new_job, insert_job}
use pgjobq.Client.{returns}
use pgjobq.Client.Enqueue.{enqueue_row}
use pgjobq.Client.Enqueue.Dedup.{Enqueued, alone, enqueue_row-Enqueued}
use pgjobq.Client.Enqueue.Twice.{enqueue_twice}
use pgjobq.Client.Batch.{enqueue_rows}
use pgjobq.Client.Batch.Shift.{enqueue_rows_shifts}
use pgjobq.Client.Admin.{Store, cancel}
use pgjobq.Client.Admin.Cancel.{Cancels, undisturbed, cancel-Cancels}
use pgjobq.Client.Stats.{stats, read_at, is_inherited}
use pgjobq.Client.Stats.Exact.{stats-exact}
use pgjobq.Examples.{waiting, a_row, one-IsValid, start, start-IsSound}

abbrev keyed : EnqueueRow
keyed = record a_row { idempotency_key = some "k" }

abbrev keyed_job : Job
unfolding new_job
keyed_job = new_job 5 1 keyed

abbrev one_keyed : Jobs
one_keyed = record { rows = keyed_job ∷ []; next_id = 2 }

enqueue_row-Enqueued_example :
    Enqueued 6 keyed one_keyed (enqueue_row alone 6 "mail" keyed one_keyed)
unfolding check_row new_job
enqueue_row-Enqueued_example = enqueue_row-Enqueued 6 keyed one_keyed refl

enqueue_twice_example :
    enqueue_row alone 6 "mail" keyed one_keyed
    ≡ (returns (record { id = 1; deduplicated = true }), record one_keyed { next_id = 3 })
unfolding check_row new_job enqueue_row insert_job any
enqueue_twice_example =
    enqueue_twice 5 6 keyed keyed start.jobs one_keyed (record { id = 1; deduplicated = false })
      start-IsSound.good refl refl refl refl refl refl

-- The unique key of the waiting job is taken; another is free.
abbrev other_row : EnqueueRow
other_row = record a_row { unique_key = some "w" }

abbrev other_job : Job
unfolding new_job
other_job = new_job 5 3 other_row

enqueue_rows_shifts_example :
    enqueue_rows 5 "mail"
      (λ n. [])
      (a_row ∷ other_row ∷ [])
      (record { rows = waiting ∷ []; next_id = 2 })
    ≡ (
      returns (
          record { id = some 3; deduplicated = false }
          ∷ record { id = none; deduplicated = false }
          ∷ []),
      record { rows = waiting ∷ other_job ∷ []; next_id = 4 },
    )
unfolding check_row new_job clash any
enqueue_rows_shifts_example =
    enqueue_rows_shifts 5 "mail" (λ n. []) a_row other_row
      (record { rows = waiting ∷ []; next_id = 2 }) refl refl refl refl refl refl

abbrev one_waiting : Store
one_waiting = record { rows = waiting ∷ []; audits = [] }

cancel-Cancels_example : Cancels waiting (waiting ∷ []) (cancel (undisturbed 5) 1 "ops" one_waiting)
unfolding check_row
cancel-Cancels_example =
    cancel-Cancels 5 "ops" one_waiting waiting (one-IsValid waiting refl refl) (inl refl)

stats-exact_example : read_at "mail" JobState.available (stats (waiting ∷ [])) ≡ some 1
unfolding is_inherited any where_
stats-exact_example = stats-exact "mail" JobState.available (waiting ∷ []) refl
