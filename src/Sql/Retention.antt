-- ===== src/Sql/Retention.antt =====
-- packages/core/src/sql/retention.sql.ts: deletion and archival of finished jobs.
use pgjobq.Base.{
  ℕ, ◌+◌, Bool, true, false, ◌&&◌, not, Option, none, some, List, [], ◌∷◌, ◌++◌, map, ltb, leb,
  str_eq, if◌then◌else◌, where_, order_by, take,
}
use pgjobq.Types.{Job, QueueConfig, is_dead, is_terminal}
use pgjobq.Table.{among}

pub record PruneParams : Type 0 where
  pub limit : ℕ
  pub default_retain_succeeded : ℕ
  pub default_retain_dead : ℕ

-- The window of a job: its queue's, or the default, by whether it is dead.
unfoldable pub retain : PruneParams → List QueueConfig → Job → ℕ
retain p [] j = if is_dead j.state then p.default_retain_dead else p.default_retain_succeeded
retain p (c ∷ cs) j =
    let rest = retain p cs j in
    if str_eq c.queue j.queue
    then (if is_dead j.state then c.retain_dead else c.retain_succeeded)
    else rest

-- `finished_at < now() - window`, with no subtraction.
abbrev pub finished_before : Option ℕ → ℕ → ℕ → Bool
finished_before none window now = false
finished_before (some f) window now = ltb (f + window) now

unfoldable pub prunable : PruneParams → List QueueConfig → ℕ → Job → Bool
unfolding retain
prunable p cs now j = is_terminal j.state && finished_before j.finished_at (retain p cs j) now

abbrev pub finished_order : Option ℕ → Option ℕ → Bool
finished_order (some a) (some b) = leb a b
finished_order (some a) none = true
finished_order none (some b) = false
finished_order none none = true

unfoldable pub victims : PruneParams → List QueueConfig → ℕ → (ℕ → Bool) → List Job → List Job
unfolding prunable
victims p cs now locked t = take p.limit (
    where_ (λ j. not (locked j.id))
      (order_by (λ j k. finished_order j.finished_at k.finished_at) (where_ (prunable p cs now) t)))

-- The table after the deletion, and the rows deleted.
unfoldable pub prune_terminal_jobs :
    PruneParams → List QueueConfig → ℕ → (ℕ → Bool) → List Job → List Job × List Job
prune_terminal_jobs p cs now locked t =
    let v = victims p cs now locked t in (where_ (λ j. not (among v j)) t, where_ (among v) t)

pub record ArchivedJob : Type 0 where
  pub job : Job
  pub archived_at : ℕ

-- One statement: the rows leave the table and enter the archive together.
unfoldable pub archive_terminal_jobs :
    PruneParams
    → List QueueConfig
    → ℕ
    → (ℕ → Bool)
    → List Job × List ArchivedJob
    → (List Job × List ArchivedJob) × List Job
unfolding prune_terminal_jobs
archive_terminal_jobs p cs now locked (t, archive) =
    let (t', moved) = prune_terminal_jobs p cs now locked t in
    ((t', archive ++ map (λ j. record { job = j; archived_at = now }) moved), moved)
