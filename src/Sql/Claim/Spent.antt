-- ===== src/Sql/Claim/Spent.antt =====
-- Sql.Claim: a candidate that has no attempt left.
use pgjobq.Base.{
  ℕ, ◌≤◌, ◌≡◌, refl, ◌∙◌, sym, ap, subst, ◌⊎◌, inl, inr, Bool, true, false, not, String, List, [],
  map, arith, leb, any, where_, order_by, take_all, length, length-order_by, length-where-le, In,
  In-any, any-In, all-In, Bool-cases, where-In, order_by-In, str_eq,
}
use pgjobq.Types.{Job, QueueConfig, is_available}
use pgjobq.Table.{Result, ok, err, PgError, check_row, update_where, among}
use pgjobq.Table.Keys.{KeepsKeys, update_where_unique}
use pgjobq.Table.Update.{update_passes, update_rejected, written_checks, written_fails}
use pgjobq.Table.Valid.{IsValid}
use pgjobq.Table.Selection.{among-In}
use pgjobq.Sql.Claim.{
  ClaimParams, claim_order, candidates, claimed, claim_by, claim_jobs, paused, eligible,
}
use pgjobq.Sql.Claim.Order.{claim_order-Total, claim_order-Transitive}
use pgjobq.Sql.Claim.Candidates.{IsEligible, In-candidates, among_candidates, IsEligible_eligible}
use pgjobq.Sql.Report.{FenceParams, owned, released}
use pgjobq.Sql.Report.Fence.{send, releases, takes, written, send_owner, send-IsValid}

-- The job has used up its attempts.
abbrev pub spent : Job → Bool
spent j = leb j.max_attempts j.attempt

claimed-check :
    (now : ℕ) (w : String) (j : Job)
    → check_row j ≡ true
    → spent j ≡ false
    → check_row (claimed now w j) ≡ true
unfolding check_row claimed
claimed-check now w j c s = ground arith

claimed-check_spent :
    (now : ℕ) (w : String) (j : Job) → spent j ≡ true → check_row (claimed now w j) ≡ false
unfolding check_row claimed
claimed-check_spent now w j s = ground arith

claimed-KeepsKeys :
    (now : ℕ) (w : String) (j : Job) → is_available j.state ≡ true → KeepsKeys j (claimed now w j)
unfolding claimed
claimed-KeepsKeys now w j a = record {
  queue = refl;
  idempotency_key = refl;
  unique_key = refl;
  active = λ _. ground arith;
}

module _ {next : ℕ} (cs : List QueueConfig) (now : ℕ) (locked : ℕ → Bool) (p : ClaimParams)
    (t : List Job) (v : IsValid next t) where
  abbrev chosen : List Job
  chosen = candidates claim_order cs now locked p t

  row : (j : Job) → In j t → among chosen j ≡ true → In j chosen × IsEligible cs now p.queue j
  row j m y =
      let c =
        among_candidates claim_order claim_order-Total claim_order-Transitive cs now locked p t j
          v.ids m y in
      (
        c,
        (In-candidates claim_order claim_order-Total claim_order-Transitive cs now locked p t j
            c).1,
      )

  passes :
      any spent chosen ≡ false
      → claim_jobs cs now locked p t
        ≡ ok (
          update_where (among chosen) (claimed now p.worker_id) t,
          map (claimed now p.worker_id) (where_ (among chosen) t),
        )
  unfolding claim_jobs claim_by
  passes none_spent =
      update_passes _ _ t
        (written_checks _ _ t λ j m y.
          claimed-check now p.worker_id j (all-In check_row t j v.checks m) (fresh j (row j m y).0))
        (update_where_unique _ _ t
          (λ j m y. claimed-KeepsKeys now p.worker_id j (row j m y).1.state) v.keys)
    where
      fresh : (j : Job) → In j chosen → spent j ≡ false
      fresh j m = elim (Bool-cases (spent j)) [
        | inl y ↦ cc (none_spent, any-In spent chosen j m y)
        | inr n ↦ n
      ]

  pub claim_jobs_rejected :
      (j : Job)
      → In j (candidates claim_order cs now locked p t)
      → spent j ≡ true
      → claim_jobs cs now locked p t ≡ err PgError.check_violation
  unfolding claim_jobs claim_by
  claim_jobs_rejected j m s = update_rejected _ _ t (
      written_fails _ _ t j
        (In-candidates claim_order claim_order-Total claim_order-Transitive cs now locked p t j m).0
        (among-In chosen j m) (claimed-check_spent now p.worker_id j s))

-- On a valid table a claim either goes through, and then no candidate had used up its attempts, or
-- some candidate had, and then the whole statement fails with a check violation.
pub claim_jobs_outcome :
    {next : ℕ} (cs : List QueueConfig) (now : ℕ) (locked : ℕ → Bool) (p : ClaimParams)
    (t : List Job)
    → IsValid next t
    → ((any spent (candidates claim_order cs now locked p t) ≡ false)
        × ((t' : List Job) × (w : List Job) × (claim_jobs cs now locked p t ≡ ok (t', w))))
      ⊎ (((j : Job) × In j (candidates claim_order cs now locked p t) × (spent j ≡ true))
          × (claim_jobs cs now locked p t ≡ err PgError.check_violation))
claim_jobs_outcome cs now locked p t v =
    elim (Bool-cases (any spent (candidates claim_order cs now locked p t))) [
      | inl y ↦
          let (j, m, s) = In-any spent _ y in
          inr ((j, m, s), claim_jobs_rejected cs now locked p t v j m s)
      | inr n ↦ inl (n, (_, _, passes cs now locked p t v n))
    ]

-- With room in the batch, every eligible row that nobody holds is a candidate.
roomy :
    (cs : List QueueConfig) (now : ℕ) (locked : ℕ → Bool) (p : ClaimParams) (t : List Job) (j : Job)
    → length (where_ (eligible cs now p.queue) t) ≤ p.limit
    → In j t
    → IsEligible cs now p.queue j
    → locked j.id ≡ false
    → In j (candidates claim_order cs now locked p t)
unfolding candidates
roomy cs now locked p t j room m e free =
    rw
      (take_all p.limit (where_ (λ (k : Job). not (locked k.id)) sorted) (
        omega (
          arith,
          length-where-le (λ (k : Job). not (locked k.id)) sorted,
          length-order_by claim_order matching,
        )))
      (where-In _ sorted j
        (order_by-In claim_order matching j
          (where-In _ t j m (IsEligible_eligible cs now p.queue j e)))
        (rw free))
  where
    matching : List Job
    matching = where_ (eligible cs now p.queue) t

    sorted : List Job
    sorted = order_by claim_order matching

released-IsEligible :
    (cs : List QueueConfig) (now later : ℕ) (q : String) (j : Job)
    → now ≤ later
    → str_eq j.queue q ≡ true
    → paused cs j.queue ≡ false
    → IsEligible cs later q (released now j)
unfolding released
released-IsEligible cs now later q j h e f = ground arith

abbrev rows_of : Result (List Job × List Job) → List Job
rows_of (ok (t, w)) = t
rows_of (err e) = []

-- A worker that shuts down while it runs a job on its last permitted attempt, and releases it, wedges
-- the queue: after the release a claim of that queue by anyone fails with a check violation, as long
-- as the table is as the release left it, the queue is not paused, nobody holds the job's row, and
-- the batch has room for the eligible rows.
pub release_wedges :
    {next : ℕ} (now later : ℕ) (f : FenceParams) (t t' w : List Job) (j : Job)
    (cs : List QueueConfig) (locked : ℕ → Bool) (p : ClaimParams)
    → IsValid next t
    → In j t
    → owned f j ≡ true
    → j.attempt ≡ j.max_attempts
    → now ≤ later
    → send now (releases f) t ≡ ok (t', w)
    → str_eq j.queue p.queue ≡ true
    → paused cs j.queue ≡ false
    → locked j.id ≡ false
    → length (where_ (eligible cs later p.queue) t') ≤ p.limit
    → claim_jobs cs later locked p t' ≡ err PgError.check_violation
unfolding takes written released
release_wedges {next} now later f t t' w j cs locked p v m o last h sent q resumed free room =
    let (t2, e, there, _) = send_owner now (releases f) t j v m o in
    let here = subst (In (released now j)) (ap rows_of (sym e ∙ sent)) there in
    claim_jobs_rejected cs later locked p t' (send-IsValid next now (releases f) t t' w sent v)
      (released now j)
      (roomy cs later locked p t' (released now j) room here
        (released-IsEligible cs now later p.queue j h q resumed) free)
      (ground arith)
