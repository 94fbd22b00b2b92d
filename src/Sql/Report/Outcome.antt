-- ===== src/Sql/Report/Outcome.antt =====
-- What a failure report decides, and the bounded history of errors.
use pgjobq.Base.{
  ℕ, ◌+◌, ◌≤◌, ◌<◌, ◌≡◌, refl, true, false, ◌-◌, leb→le, none, some, List, [], ◌∷◌, ◌++◌, arith,
  leb, length, length-append, In, Bool-cases, inl, inr,
}
use pgjobq.Types.{Job, JobErrorRecord, available, dead, DeadReason}
use pgjobq.Table.{ok}
use pgjobq.Table.Valid.{IsValid}
use pgjobq.Sql.Report.{FailParams, owned, failed, fail_job, push_error, drop_oldest}
use pgjobq.Sql.Report.Fence.{send, fails, takes, written, send_owner}

-- The three outcomes of a failure: dead at once, dead for want of attempts, or a retry after the
-- delay.
pub data Fails (now : ℕ) (p : FailParams) (j k : Job) : Type 0 where
  rejected :
      p.non_retryable ≡ true
      → k.state ≡ dead
      → k.dead_reason ≡ some DeadReason.non_retryable_error
      → k.finished_at ≡ some now
      → Fails now p j k
  exhausted :
      p.non_retryable ≡ false
      → j.max_attempts ≤ j.attempt
      → k.state ≡ dead
      → k.dead_reason ≡ some DeadReason.attempts_exhausted
      → k.finished_at ≡ some now
      → Fails now p j k
  retried :
      p.non_retryable ≡ false
      → j.attempt < j.max_attempts
      → k.state ≡ available
      → k.dead_reason ≡ none
      → k.run_at ≡ now + p.retry_delay_ms
      → k.finished_at ≡ none
      → Fails now p j k

failed-Fails : (now : ℕ) (p : FailParams) (j : Job) → Fails now p j (failed now p j)
unfolding failed
failed-Fails now p j = elim (Bool-cases p.non_retryable) [
  | inl y ↦ rejected y (ground arith) (ground arith) (ground arith)
  | inr n ↦ elim (Bool-cases (leb j.max_attempts j.attempt)) [
    | inl y ↦ exhausted n (ground arith) (ground arith) (ground arith) (ground arith)
    | inr m ↦ retried n (ground arith) (ground arith) (ground arith) (ground arith) (ground arith)
  ]
]

-- The history of errors after a report: the error comes last, and the oldest is given up at the bound.
pub data Records (p : FailParams) (j k : Job) : Type 0 where
  grown :
      length j.errors < p.max_error_history → k.errors ≡ j.errors ++ p.error ∷ [] → Records p j k
  renewed :
      (first : JobErrorRecord) (es : List JobErrorRecord)
      → p.max_error_history ≤ length j.errors
      → j.errors ≡ first ∷ es
      → k.errors ≡ es ++ p.error ∷ []
      → Records p j k
  kept_none : p.max_error_history ≡ 0 → j.errors ≡ [] → k.errors ≡ p.error ∷ [] → Records p j k

failed-Records : (now : ℕ) (p : FailParams) (j : Job) → Records p j (failed now p j)
unfolding failed push_error
failed-Records now p j = elim (Bool-cases (leb p.max_error_history (length j.errors))) [
  | inr n ↦ grown (ground (arith, n)) (rw n refl)
  | inl y ↦ full j.errors refl y
]
  where
    full :
        (es : List JobErrorRecord)
        → j.errors ≡ es
        → leb p.max_error_history (length j.errors) ≡ true
        → Records p j (failed now p j)
    full [] e y = kept_none (ground (arith, y, e)) e (rw (y, e) refl)
    full (first ∷ es) e y = renewed first es (ground (arith, y)) e (rw (y, e) refl)

-- The owner's failure report on a valid table writes the owner's row alone, in one of three
-- outcomes (dead as not to be retried, dead with its attempts used up, or available after the
-- delay), with its attempt as it was, its worker and lease cleared, and the error at the end of
-- its history, which was all kept if it was below its bound, and has lost its oldest entry if not.
pub fail_job_decides :
    {next : ℕ} (now : ℕ) (p : FailParams) (t : List Job) (j : Job)
    → IsValid next t
    → In j t
    → owned p.fence j ≡ true
    → (t' : List Job) × (k : Job) × (fail_job now p t ≡ ok (t', k ∷ []))
      × In k t'
      × Fails now p j k
      × (k.attempt ≡ j.attempt)
      × (k.worker_id ≡ none)
      × (k.lease_expires_at ≡ none)
      × Records p j k
unfolding takes written send failed
fail_job_decides now p t j v m h =
    let (t', sent, here, _) = send_owner now (fails p) t j v m h in
    (t', failed now p j, sent, here, failed-Fails now p j, refl, refl, refl, failed-Records now p j)

length-drop_oldest : (es : List JobErrorRecord) → length (drop_oldest es) ≡ length es - 1
length-drop_oldest [] = omega arith
length-drop_oldest (e ∷ es) = omega arith

-- A bounded history: with a bound of at least one, appending keeps the length within every limit
-- that the bound meets, and adds one entry or replaces the oldest.
pub push_error_bounded :
    (bound m : ℕ) (e : JobErrorRecord) (es : List JobErrorRecord)
    → 0 < bound
    → bound ≤ m
    → length es ≤ m
    → length (push_error bound e es) ≤ m
unfolding push_error
push_error_bounded bound m e es pos le h = elim (Bool-cases (leb bound (length es))) [
  | inl y ↦ rw y (
      omega (
        arith,
        length-append (drop_oldest es) (e ∷ []),
        length-drop_oldest es,
        leb→le bound (length es) y,
      ))
  | inr n ↦ rw n (omega (arith, length-append es (e ∷ []), short bound (length es) n))
]
  where
    short : (a b : ℕ) → leb a b ≡ false → b < a
    short a b f = ground arith
