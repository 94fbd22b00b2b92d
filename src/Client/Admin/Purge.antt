-- ===== src/Client/Admin/Purge.antt =====
-- Client.Admin: the purge and the rows it is asked for.
use pgjobq.Base.{
  if_both, ltb→lt, In-All, All, ℕ, zero, suc, ◌+◌, ◌*◌, ◌≤◌, ◌≡◌, ◌⊎◌, inl, inr, String, Bool,
  false, ◌&&◌, List, arith, ltb, leb, str_eq, length, In, Bool-cases,
}
use pgjobq.Types.{Job, JobState}
use pgjobq.Table.Valid.{IsValid, where-IsValid}
use pgjobq.Table.Deletion.{deleted, kept_row, short_batch, length-deleted-le}
use pgjobq.StateMachine.{includes}
use pgjobq.Sql.Query.{purge_victims, purge_queue}
use pgjobq.Client.Admin.{purge_batches}

-- A row that a purge is after.
abbrev pub purged : String → List JobState → Job → Bool
purged queue states j = str_eq j.queue queue && includes j.state states

abbrev pub nobody_holds : ℕ → ℕ → Bool
nobody_holds n id = false

ltb_full : (a b : ℕ) → ltb a b ≡ false → a ≤ b → a ≡ b
ltb_full a b h le = ground (arith, h, le)

mul_next : (a b : ℕ) → a + a * b ≡ a * suc b
mul_next a b = ground arith

abbrev by_id : Job → Job → Bool
by_id j k = leb j.id k.id

abbrev after_batch : String → List JobState → ℕ → List Job → List Job
unfolding purge_queue purge_victims
after_batch queue states size t = (purge_queue (nobody_holds 0) queue states size t).0

after_batch-IsValid :
    {next : ℕ} (queue : String) (states : List JobState) (size : ℕ) (t : List Job)
    → IsValid next t
    → IsValid next (after_batch queue states size t)
unfolding purge_queue
after_batch-IsValid {next = next} queue states size t v = where-IsValid next _ t v

-- Where nobody else holds rows, a purge keeps every row of another queue or of another state.
pub purge_batches_spares :
    {next : ℕ} (queue : String) (states : List JobState) (size batches : ℕ) (t : List Job) (j : Job)
    → IsValid next t
    → In j t
    → purged queue states j ≡ false
    → In j (purge_batches nobody_holds queue states size batches t).1
unfolding purge_batches purge_queue purge_victims
purge_batches_spares queue states size zero t j v m n = m
purge_batches_spares queue states size (suc batches) t j v m n =
    if_both (λ (r : ℕ × List Job). In j r.1) _ (kept_row by_id (purged queue states) size t v j m n)
      (purge_batches_spares queue states size batches (after_batch queue states size t) j
        (after_batch-IsValid queue states size t v)
        (kept_row by_id (purged queue states) size t v j m n) n)

-- On a valid table where nobody else holds rows, a purge leaves no row of the queue in the given
-- states, unless all its batches were full, and then it has deleted that many rows.
pub purge_batches_clears :
    {next : ℕ} (queue : String) (states : List JobState) (size batches : ℕ) (t : List Job)
    → IsValid next t
    → All
        (λ j. purged queue states j ≡ false)
        (purge_batches nobody_holds queue states size batches t).1
      ⊎ ((purge_batches nobody_holds queue states size batches t).0 ≡ size * batches)
unfolding purge_batches purge_queue purge_victims
purge_batches_clears queue states size zero t v = inr (omega arith)
purge_batches_clears queue states size (suc batches) t v =
    elim (Bool-cases (ltb (length (deleted by_id (purged queue states) size t v)) size)) [
      | inl y ↦ rw y (
          inl (
            In-All _ _
              (λ j m. short_batch by_id (purged queue states) size t v j (ltb→lt _ _ y) m)))
      | inr n ↦ rw n (
          rest _
            (purge_batches_clears queue states size batches (after_batch queue states size t)
              (after_batch-IsValid queue states size t v))
            n)
    ]
  where
    rest :
        {d : ℕ} (u : List Job)
        → All (λ j. purged queue states j ≡ false) u ⊎ (d ≡ size * batches)
        → ltb (length (deleted by_id (purged queue states) size t v)) size ≡ false
        → All (λ j. purged queue states j ≡ false) u
          ⊎ (length (deleted by_id (purged queue states) size t v) + d ≡ size * suc batches)
    rest u (inl a) n = inl a
    rest u (inr e) n =
        let full = ltb_full _ _ n (length-deleted-le by_id (purged queue states) size t v) in
        inr (rw (full, e) (mul_next size batches))
