-- ===== src/Worker/Pool/Slots.antt =====
-- Worker.Pool: the jobs in flight against the concurrency.
use pgjobq.Base.{
  Option, none, some, length-map, ◌≡◌, Bool, refl, ℕ, ◌+◌, ◌-◌, ◌≤◌, min, ◌&&◌, List, [], ◌∷◌,
  arith, ltb, inl, inr, ◌⊎◌, Bool-cases, if_both, length,
}
use pgjobq.Base.Keyed.{delete_key, length-set_key, length-delete_key}
use pgjobq.Table.{Result, ok, err}
use pgjobq.Table.Valid.{IsValid}
use pgjobq.Sql.Claim.{ClaimParams, claim_jobs, claim_jobs_with_aging, to_claimed_job}
use pgjobq.Sql.Claim.Best.{claim_jobs_sound, claim_jobs_with_aging_limited}
use pgjobq.Sql.Enqueue.{QueueDefaultsRow}
use pgjobq.Types.{Job, QueueConfig, ClaimedJob}
use pgjobq.Worker.Pool.{
  claim_with, claim_statement, claimed_rows, Pool, PoolOptions, Event, starts, drains, asks,
  answers, settles, start, drain, spawn, spawn_all, settle, asked_by, ask, answer, on_event,
  run_pool,
}

spawn_all-length :
    (s : Pool) (jobs : List ClaimedJob)
    → length (spawn_all s jobs).in_flight ≤ length s.in_flight + length jobs
unfolding spawn_all spawn
spawn_all-length s [] = omega arith
spawn_all-length s (job ∷ jobs) =
    omega (arith, spawn_all-length (spawn s job) jobs, length-set_key job.id s.next_run s.in_flight)

spawn_all-asked : (s : Pool) (jobs : List ClaimedJob) → (spawn_all s jobs).asked ≡ s.asked
unfolding spawn_all spawn
spawn_all-asked s [] = refl
spawn_all-asked s (job ∷ jobs) = spawn_all-asked (spawn s job) jobs

-- Every claim of the history is of the one loop, and returns at most as many rows as it asks for.
abbrev pub OneLoop : List Event → Type 0
OneLoop [] = Unit {0}
OneLoop (asks loop ∷ es) = (loop ≡ 0) × OneLoop es
OneLoop (answers loop claim ∷ es) = (loop ≡ 0) × ((n : ℕ) → length (claim n) ≤ n) × OneLoop es
OneLoop (e ∷ es) = OneLoop es

-- The jobs in flight and those that the loop waits for.
abbrev pub IsWithin : PoolOptions → Pool → Type 0
IsWithin o s =
    ((s.asked ≡ []) × (length s.in_flight ≤ o.concurrency))
    ⊎ ((n : ℕ) × (s.asked ≡ (0, n) ∷ []) × (length s.in_flight + n ≤ o.concurrency))

ask-IsWithin : (o : PoolOptions) (s : Pool) → IsWithin o s → IsWithin o (ask o 0 s)
unfolding ask asked_by
ask-IsWithin o s (inr (n, e, h)) = rw e (inr (n, refl, h))
ask-IsWithin o s (inl (e, h)) =
    elim (Bool-cases (s.running && ltb 0 (o.concurrency - length s.in_flight))) [
      | inl y ↦
          rw (e, y)
            (inr
              (min (o.concurrency - length s.in_flight) o.claim_batch_max, refl, omega (arith, h)))
      | inr x ↦ rw (e, x) (inl (refl, h))
    ]

answer-IsWithin :
    (o : PoolOptions) (claim : ℕ → List ClaimedJob) (s : Pool)
    → ((n : ℕ) → length (claim n) ≤ n)
    → IsWithin o s
    → IsWithin o (answer 0 claim s)
unfolding answer asked_by delete_key
answer-IsWithin o claim s limited (inl (e, h)) = rw e (inl (refl, h))
answer-IsWithin o claim s limited (inr (n, e, h)) =
    let s' : Pool = record s { asked = [] } in
    rw e (
      inl
        (spawn_all-asked s' (claim n), omega (arith, spawn_all-length s' (claim n), limited n, h)))

-- While the pool has one loop, if each claim returns at most as many jobs as it was allowed, then the jobs
-- in flight never outnumber its concurrency, nor would they with all that the loop waits for, when they
-- did not at the start: whatever starts, shutdowns and ends of runs come in between.
pub run_pool-IsWithin :
    (o : PoolOptions) (es : List Event) (s : Pool)
    → OneLoop es
    → IsWithin o s
    → IsWithin o (run_pool o es s)
unfolding run_pool on_event start drain settle
run_pool-IsWithin o [] s l h = h
run_pool-IsWithin o (starts ∷ es) s l h =
    run_pool-IsWithin o es (start s) l (if_both (IsWithin o) s.running h h)
run_pool-IsWithin o (drains ∷ es) s l h =
    run_pool-IsWithin o es (drain s) l (if_both (IsWithin o) s.running h h)
run_pool-IsWithin o (asks loop ∷ es) s (e, l) h =
    run_pool-IsWithin o es (ask o loop s) l (rw e (ask-IsWithin o s h))
run_pool-IsWithin o (answers loop claim ∷ es) s (e, limited, l) h =
    run_pool-IsWithin o es (answer loop claim s) l (rw e (answer-IsWithin o claim s limited h))
run_pool-IsWithin o (settles n id outcome ∷ es) s l h =
    run_pool-IsWithin o es (settle n id outcome s) l (fewer h)
  where
    fewer : IsWithin o s → IsWithin o (settle n id outcome s)
    fewer (inl (e, q)) = inl (e, omega (arith, length-delete_key id s.in_flight, q))
    fewer (inr (m, e, q)) = inr (m, e, omega (arith, length-delete_key id s.in_flight, q))

rows_within :
    (n : ℕ) (q : Result (List Job × List Job))
    → ((t w : List Job) → q ≡ ok (t, w) → length w ≤ n)
    → length (claimed_rows q) ≤ n
unfolding claimed_rows to_claimed_job
rows_within n (ok (t, w)) h = omega (arith, length-map to_claimed_job w, h t w refl)
rows_within n (err e) h = omega arith

claims_within :
    {next : ℕ} (cs : List QueueConfig) (now : ℕ) (locked : ℕ → Bool) (aging : Bool)
    (threshold : Option ℕ) (p : ClaimParams) (t : List Job)
    → IsValid next t
    → length (claimed_rows (claim_with cs now locked aging threshold p t)) ≤ p.limit
claims_within cs now locked aging none p t v =
    rows_within p.limit (claim_jobs cs now locked p t)
      (λ t' w h. (claim_jobs_sound cs now locked p t t' w v h).0)
claims_within cs now locked aging (some threshold) p t v =
    if_both (λ q. length (claimed_rows q) ≤ p.limit) aging
      (rows_within p.limit (claim_jobs_with_aging cs now locked p threshold t)
        (λ t' w h. claim_jobs_with_aging_limited cs now locked p threshold t t' w v h))
      (rows_within p.limit (claim_jobs cs now locked p t)
        (λ t' w h. (claim_jobs_sound cs now locked p t t' w v h).0))

-- The claims that a pool sends to a valid table obey their limit.
pub claimed_rows-claim_statement :
    {next : ℕ} (cs : List QueueConfig) (now : ℕ) (locked : ℕ → Bool) (config : QueueDefaultsRow)
    (p : ClaimParams) (t : List Job)
    → IsValid next t
    → length (claimed_rows (claim_statement cs now locked config p t)) ≤ p.limit
unfolding claim_statement
claimed_rows-claim_statement cs now locked config p t v =
    claims_within cs now locked config.priority_aging config.aging_threshold_s p t v
