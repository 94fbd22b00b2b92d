-- ===== src/Worker/Delivery.antt =====
-- The way of one job through insertJob, claimJobs and Runner.run.
use text.Mathlib.TextPositions.{eq_refl}
use pgjobq.Base.{
  ℕ, ◌≤◌, ◌<◌, ◌≡◌, refl, sym, subst, Bool, true, false, Option, none, some, List, [], ◌∷◌, ◌++◌,
  inl, inr, arith, where_, length, In, append-In,
}
use pgjobq.Types.{Job, QueueConfig}
use pgjobq.Table.{Elsewhere, Result, ok}
use pgjobq.Table.Valid.{IsValid}
use pgjobq.Sql.Claim.{
  ClaimParams, eligible, paused, claim_order, claimed, claim_jobs, to_claimed_job,
}
use pgjobq.Sql.Claim.Order.{claim_order-Total, claim_order-Transitive}
use pgjobq.Sql.Claim.Candidates.{IsEligible, claim_by_room, claim_by-IsValid}
use pgjobq.Sql.Enqueue.{EnqueueRow, Jobs, coalesce, new_job, insert_job}
use pgjobq.Sql.Enqueue.Insert.{IsGood, Inserts, insert_job-Inserts, insert_job-IsGood}
use pgjobq.Sql.Report.{owned}
use pgjobq.Worker.Runner.{RunnerOptions, Flags, fence_for, run_job, succeeded}
use pgjobq.Worker.Runner.Verdicts.{run_job_succeeds}

new_job-IsEligible :
    (cs : List QueueConfig) (now later id : ℕ) (r : EnqueueRow)
    → coalesce r.run_at now ≤ later
    → paused cs r.queue ≡ false
    → IsEligible cs later r.queue (new_job now id r)
unfolding new_job
new_job-IsEligible cs now later id r due open_ = record {
  queue = eq_refl r.queue;
  state = refl;
  due = due;
  resumed = open_;
}

-- A worker owns the row that its claim wrote.
claimed-owned :
    (o : RunnerOptions) (now : ℕ) (j : Job)
    → owned (fence_for o (to_claimed_job (claimed now o.worker_id j))) (claimed now o.worker_id j)
      ≡ true
unfolding owned fence_for to_claimed_job claimed
claimed-owned o now j = ground (arith, eq_refl o.worker_id)

unlocked_row :
    (now id : ℕ) (r : EnqueueRow) (locked : ℕ → Bool)
    → locked id ≡ false
    → locked (new_job now id r).id ≡ false
unfolding new_job
unlocked_row now id r locked h = h

inserted-In :
    (now id : ℕ) (r : EnqueueRow) (s s' : Jobs)
    → insert_job now r s ≡ ok (s', some id)
    → In (new_job now id r) s'.rows
inserted-In now id r s s' h = go (insert_job-Inserts now r s) h
  where
    rows_eq :
        {a b : Jobs} {x y : Option ℕ}
        → Path (Result (Jobs × Option ℕ)) (ok (a, x)) (ok (b, y))
        → a.rows ≡ b.rows
    rows_eq e = cc

    go :
        {q : Result (Jobs × Option ℕ)}
        → Inserts now r s q
        → q ≡ ok (s', some id)
        → In (new_job now id r) s'.rows
    go (Inserts.refused _) e = cc
    go (Inserts.kept _ _) e = cc
    go (Inserts.added c f) e =
        let same : s.next_id ≡ id = cc in
        let rows : s.rows ++ new_job now s.next_id r ∷ [] ≡ s'.rows = rows_eq e in
        subst (In (new_job now id r)) rows
          (rw (← same) (append-In s.rows (new_job now s.next_id r ∷ []) _ (inr (inl refl))))

-- From a valid table: a job that was inserted, is due and whose queue is not paused is returned by any
-- claim of its queue that goes through, if it is not locked and fewer rows are eligible than the claim's
-- limit; and if its handler then returns, with no cancellation requested and the table as the claim left
-- it, the run of the worker that claimed it ends in success.
pub inserted_job_succeeds :
    (cs : List QueueConfig) (now later id : ℕ) (r : EnqueueRow) (s s' : Jobs) (locked : ℕ → Bool)
    (o : RunnerOptions) (p : ClaimParams) (t rows : List Job) (w : Elsewhere) (flags : Flags)
    → IsGood s
    → insert_job now r s ≡ ok (s', some id)
    → coalesce r.run_at now ≤ later
    → paused cs r.queue ≡ false
    → locked id ≡ false
    → p.queue ≡ r.queue
    → p.worker_id ≡ o.worker_id
    → length (where_ (eligible cs later p.queue) s'.rows) < p.limit
    → claim_jobs cs later locked p s'.rows ≡ ok (t, rows)
    → w.between 1 t ≡ t
    → flags.cancel_requested ≡ false
    → In (claimed later o.worker_id (new_job now id r)) rows
      × ((t' : List Job) × (run_job o w
              (to_claimed_job (claimed later o.worker_id (new_job now id r)))
              none
              flags
              t
            ≡ ok (t', succeeded)))
unfolding claim_jobs
inserted_job_succeeds cs now later id r s s' locked o p t rows w flags g h due open_ free q name
      room c still calm =
    let good = insert_job-IsGood now r s s' (some id) g h in
    let j = new_job now id r in
    let (here, back) =
      claim_by_room claim_order claim_order-Total claim_order-Transitive cs later locked p s'.rows t
        rows j good c room (inserted-In now id r s s' h)
        (subst (λ x. IsEligible cs later x j) (sym q)
          (new_job-IsEligible cs now later id r due open_))
        (unlocked_row now id r locked free) in
    (
      subst (λ x. In (claimed later x j) rows) name back,
      run_job_succeeds o w (to_claimed_job (claimed later o.worker_id j)) flags t
          (claimed later o.worker_id j)
          (subst (IsValid s'.next_id) (sym still)
            (claim_by-IsValid claim_order s'.next_id cs later locked p s'.rows t rows c good))
          (subst (In (claimed later o.worker_id j)) (sym still)
            (subst (λ x. In (claimed later x j) t) name here))
          (claimed-owned o later j) calm,
    )
