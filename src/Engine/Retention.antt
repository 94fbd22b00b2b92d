-- ===== src/Engine/Retention.antt =====
-- packages/core/src/engine/retention.ts: finished jobs leave the table in bounded passes.
pub mod Passes
pub mod Rounds
use pgjobq.Base.{
  ℕ, zero, suc, ◌+◌, String, Bool, true, false, ◌&&◌, not, Option, none, some, List, [], ◌∷◌, ◌++◌,
  any, all, ltb, leb, ◌==◌, str_eq, length, if◌then◌else◌,
}
use pgjobq.Types.{Job, QueueConfig}
use pgjobq.Sql.Retention.{PruneParams, ArchivedJob, prune_terminal_jobs, archive_terminal_jobs}

-- The archive with its partitions, each the number of a month since the year 0.
pub record Archive : Type 0 where
  pub rows : List ArchivedJob
  pub months : List ℕ

-- `CREATE TABLE IF NOT EXISTS … PARTITION OF job_archive`
unfoldable pub create_archive_partition : ℕ → List ℕ → List ℕ
create_archive_partition month months =
    if any (λ m. m == month) months then months else months ++ month ∷ []

-- `ensurePartitions` at a time in that month: `Date.UTC` carries the month over into the year.
unfoldable pub ensure_partitions : ℕ → List ℕ → List ℕ
unfolding create_archive_partition
ensure_partitions month months =
    create_archive_partition (month + 1) (create_archive_partition month months)

pub record RetentionOptions : Type 0 where
  pub params : PruneParams
  pub archive : Bool

-- The tables, and the rows of the answer; none is an error of the database.
abbrev pub Pruned : Type 0
Pruned = Option ((List Job × Archive) × List Job)

-- The month of a time, in UTC.
module _ (month_of : ℕ → ℕ) where
  -- The archive has no place for a row of a month that no partition covers; then the whole statement is
  -- taken back.
  abbrev pub archived : Archive → ℕ → (List Job × List ArchivedJob) × List Job → Pruned
  archived a now ((t, rows), []) = some ((t, record a { rows = rows }), [])
  archived a now ((t, rows), row ∷ more) =
      if any (λ m. m == month_of now) a.months
      then some ((t, record a { rows = rows }), row ∷ more)
      else none

  abbrev pub pruned : Archive → List Job × List Job → Pruned
  pruned a (t, rows) = some ((t, a), rows)

  -- The statement of `pruneOnce`.
  unfoldable pub prune_once :
      RetentionOptions → List QueueConfig → ℕ → (ℕ → Bool) → List Job × Archive → Pruned
  unfolding prune_terminal_jobs archive_terminal_jobs
  prune_once o cs now locked (t, a) =
      if o.archive
      then archived a now (archive_terminal_jobs o.params cs now locked (t, a.rows))
      else pruned a (prune_terminal_jobs o.params cs now locked t)

  -- The end of a round: the total, or none for the error that ends it, and the tables. A round that has
  -- not ended is none.
  abbrev pub Round : Type 0
  Round = Option (Option ℕ × (List Job × Archive))

  abbrev pub added : ℕ → Round → Round
  added n none = none
  added n (some (none, s)) = some (none, s)
  added n (some (some m, s)) = some (some (n + m), s)

  abbrev pub after_pass : (List Job × Archive → Round) → ℕ → List Job × Archive → Pruned → Round
  after_pass rest batch_max s none = some (none, s)
  after_pass rest batch_max s (some (s', rows)) =
      let more = added (length rows) (rest s') in
      if ltb (length rows) batch_max then some (some (length rows), s') else more

  -- The passes of one round of `run`, while it is not stopped. The fuel counts the passes that may be
  -- made; each has
  -- its locks and its time.
  unfoldable pub passes :
      ℕ
      → RetentionOptions
      → List QueueConfig
      → (ℕ → ℕ)
      → (ℕ → ℕ → Bool)
      → List Job × Archive
      → Round
  unfolding prune_once
  passes zero o cs clock locked s = none
  passes (suc fuel) o cs clock locked s =
      after_pass (passes fuel o cs clock locked) o.params.limit s
        (prune_once o cs (clock fuel) (locked fuel) s)

  -- One round of `run`: the partitions are made first, by the process's clock.
  unfoldable pub round :
      ℕ
      → RetentionOptions
      → List QueueConfig
      → ℕ
      → (ℕ → ℕ)
      → (ℕ → ℕ → Bool)
      → List Job × Archive
      → Round
  unfolding ensure_partitions passes
  round fuel o cs process_now clock locked (t, a) = passes fuel o cs clock locked (
    t,
    if o.archive
        then record a { months = ensure_partitions (month_of process_now) a.months }
        else a,
  )

-- `byQueue`
unfoldable pub count_queue : String → List (String × ℕ) → List (String × ℕ)
count_queue q [] = (q, 1) ∷ []
count_queue q ((r, n) ∷ counts) =
    let rest = count_queue q counts in if str_eq r q then (r, n + 1) ∷ counts else (r, n) ∷ rest

unfoldable pub by_queue : List Job → List (String × ℕ) → List (String × ℕ)
unfolding count_queue
by_queue [] counts = counts
by_queue (row ∷ rows) counts = by_queue rows (count_queue row.queue counts)
