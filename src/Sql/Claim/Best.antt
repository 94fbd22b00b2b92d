-- ===== src/Sql/Claim/Best.antt =====
-- Sql.Claim: the rows that the two statements pick, and their order.
use pgjobq.Base.{
  All, In-All, inl, inr, ◌⊎◌, ℕ, ◌≤◌, ◌≡◌, refl, sym, subst, some, arith, ◌+◌, ◌*◌, ◌<◌, ltb,
  Bool-cases, ◌≢◌, ◌∙◌, Bool, true, false, String, List, In, length, ap,
}
use pgjobq.Base.Int.{ltb_ℤ}
use pgjobq.Types.{Job, QueueConfig, is_available, running}
use pgjobq.Table.{ok}
use pgjobq.Table.Ids.{In-id_eq}
use pgjobq.Table.Valid.{IsValid}
use pgjobq.Sql.Claim.{
  ClaimParams, claim_order, aging_order, claimed, claim_jobs, claim_jobs_with_aging,
}
use pgjobq.Sql.Claim.Order.{
  claim_order-Total, claim_order-Transitive, aging_order-Total, aging_order-Transitive,
}
use pgjobq.Sql.Claim.Candidates.{
  IsEligible, claim_by_sound, claim_by_best, claimed-id, claim_by-IsValid,
}

-- Where a row of the answer comes from.
pub claim_jobs_row :
    {next : ℕ} (cs : List QueueConfig) (now : ℕ) (locked : ℕ → Bool) (p : ClaimParams)
    (t t' w : List Job)
    → IsValid next t
    → claim_jobs cs now locked p t ≡ ok (t', w)
    → (k : Job) → In k w
    → (j : Job) × In j t
      × IsEligible cs now p.queue j
      × (locked j.id ≡ false)
      × (k ≡ claimed now p.worker_id j)
      × In k t'
unfolding claim_jobs
claim_jobs_row cs now locked p t t' w v h =
    (claim_by_sound claim_order claim_order-Total claim_order-Transitive cs now locked p t t' w v
      h).1

-- A row as the worker gets it: the row that it was, one attempt on, and running under the worker until the
-- lease of the row's own length ends.
pub record Delivered (now : ℕ) (worker : String) (j k : Job) : Type 0 where
  pub id : k.id ≡ j.id
  pub queue : k.queue ≡ j.queue
  pub type : k.type ≡ j.type
  pub payload : k.payload ≡ j.payload
  pub state : k.state ≡ running
  pub attempt : k.attempt ≡ j.attempt + 1
  pub worker_id : k.worker_id ≡ some worker
  pub lease_expires_at : k.lease_expires_at ≡ some (now + 1000 * j.lease_seconds)

claimed-Delivered :
    (now : ℕ) (worker : String) (j : Job) → Delivered now worker j (claimed now worker j)
unfolding claimed
claimed-Delivered now worker j = record {
  id = refl;
  queue = refl;
  type = refl;
  payload = refl;
  state = refl;
  attempt = refl;
  worker_id = refl;
  lease_expires_at = refl;
}

-- On a valid table a claim that goes through returns at most `limit` rows, and each of them is a row that
-- was available, due, in the queue asked for, not paused and not locked, now running under the worker
-- with its attempt one higher, its lease ending `lease_seconds` later and its queue, type and payload as
-- they were; it is in the new table.
pub claim_jobs_sound :
    {next : ℕ} (cs : List QueueConfig) (now : ℕ) (locked : ℕ → Bool) (p : ClaimParams)
    (t t' w : List Job)
    → IsValid next t
    → claim_jobs cs now locked p t ≡ ok (t', w)
    → (length w ≤ p.limit)
      × All
          (λ k.
            (j : Job) × In j t
            × IsEligible cs now p.queue j
            × (locked j.id ≡ false)
            × Delivered now p.worker_id j k
            × In k t')
          w
unfolding claim_jobs
claim_jobs_sound cs now locked p t t' w v h =
    let (few, each) =
      claim_by_sound claim_order claim_order-Total claim_order-Transitive cs now locked p t t' w v
        h in
    (
      few,
      In-All _ w (λ k m.
          let (j, r, e, free, same, here) = each k m in
          (
            j,
            r,
            e,
            free,
            subst (Delivered now p.worker_id j) (sym same) (claimed-Delivered now p.worker_id j),
            here,
          )),
    )

-- By the priority, the higher first; then by the run time, the earlier first; then by the id.
pub data Before (j k : Job) : Type 0 where
  higher : ltb_ℤ k.priority j.priority ≡ true → Before j k
  earlier :
      ltb_ℤ j.priority k.priority ≡ false
      → ltb_ℤ k.priority j.priority ≡ false
      → j.run_at < k.run_at
      → Before j k
  lower :
      ltb_ℤ j.priority k.priority ≡ false
      → ltb_ℤ k.priority j.priority ≡ false
      → j.run_at ≡ k.run_at
      → j.id ≤ k.id
      → Before j k

claim_order-Before : (j k : Job) → claim_order j k ≡ true → Before j k
unfolding claim_order
claim_order-Before j k h = elim (Bool-cases (ltb_ℤ k.priority j.priority)) [
  | inl y ↦ higher y
  | inr n ↦ elim (Bool-cases (ltb_ℤ j.priority k.priority)) [
    | inl y ↦ absurd (ground (arith, h))
    | inr m ↦ elim (Bool-cases (ltb j.run_at k.run_at)) [
      | inl y ↦ earlier m n (ground (arith, y))
      | inr o ↦ lower m n (ground (arith, h)) (ground (arith, h))
    ]
  ]
]

-- Claimed, or passed over for a full batch of others.
full_or_claimed :
    {X Y : Type 0} {P : Job → Type 0} (w : List Job)
    → X ⊎ (Y × ((k : Job) → In k w → P k))
    → X ⊎ (Y × All P w)
full_or_claimed w (inl x) = inl x
full_or_claimed w (inr (y, f)) = inr (y, In-All _ w f)

-- On a valid table, after a claim that went through, each eligible row that is not locked either is
-- claimed, or the batch is full and every row of it comes before that row: by a higher priority, then by
-- an earlier run time, then by a lower id.
pub claim_jobs_best :
    {next : ℕ} (cs : List QueueConfig) (now : ℕ) (locked : ℕ → Bool) (p : ClaimParams)
    (t t' w : List Job) (j : Job)
    → IsValid next t
    → claim_jobs cs now locked p t ≡ ok (t', w)
    → In j t
    → IsEligible cs now p.queue j
    → locked j.id ≡ false
    → ((k : Job) × In k t' × Delivered now p.worker_id j k)
      ⊎ ((length w ≡ p.limit)
          × All (λ k. (i : Job) × In i t × Delivered now p.worker_id i k × Before i j) w)
unfolding claim_jobs
claim_jobs_best cs now locked p t t' w j v h m e free =
    elim (claim_by_best claim_order claim_order-Total claim_order-Transitive cs now locked p t t' w
      j v h m e free) [
        | inl r ↦ inl (claimed now p.worker_id j, r, claimed-Delivered now p.worker_id j)
        | inr (full, first) ↦ inr (
          full,
          In-All _ w (λ k n.
              let (i, r, same, o) = first k n in
              (
                i,
                r,
                subst (Delivered now p.worker_id i) (sym same)
                    (claimed-Delivered now p.worker_id i),
                claim_order-Before i j o,
              )),
        )
      ]

-- On a valid table, after a claim with aging that went through, each eligible row that is not locked
-- either is claimed, or the batch is full and every row of it comes before that row by the priority
-- with a point added for each threshold waited, then by run time, then by id.
pub claim_jobs_with_aging_best :
    {next : ℕ} (cs : List QueueConfig) (now : ℕ) (locked : ℕ → Bool) (p : ClaimParams)
    (threshold : ℕ) (t t' w : List Job) (j : Job)
    → IsValid next t
    → claim_jobs_with_aging cs now locked p threshold t ≡ ok (t', w)
    → In j t
    → IsEligible cs now p.queue j
    → locked j.id ≡ false
    → In (claimed now p.worker_id j) t'
      ⊎ ((length w ≡ p.limit)
          × All
              (λ k.
                (i : Job) × In i t
                × (k ≡ claimed now p.worker_id i)
                × (aging_order now threshold i j ≡ true))
              w)
unfolding claim_jobs_with_aging
claim_jobs_with_aging_best cs now locked p threshold t t' w j v h m e free = full_or_claimed w (
    claim_by_best (aging_order now threshold) (aging_order-Total now threshold)
      (aging_order-Transitive now threshold) cs now locked p t t' w j v h m e free)

pub claim_jobs_with_aging_limited :
    {next : ℕ} (cs : List QueueConfig) (now : ℕ) (locked : ℕ → Bool) (p : ClaimParams)
    (threshold : ℕ) (t t' w : List Job)
    → IsValid next t
    → claim_jobs_with_aging cs now locked p threshold t ≡ ok (t', w)
    → length w ≤ p.limit
unfolding claim_jobs_with_aging
claim_jobs_with_aging_limited cs now locked p threshold t t' w v h =
    (claim_by_sound (aging_order now threshold) (aging_order-Total now threshold)
      (aging_order-Transitive now threshold) cs now locked p t t' w v h).0

claimed_not_available :
    (now : ℕ) (w : String) (j : Job) → is_available (claimed now w j).state ≡ false
unfolding claimed
claimed_not_available now w j = refl

-- Two claims in a row, by whichever workers and under whichever locks, return no job in common.
pub claim_jobs_disjoint :
    {next : ℕ} (cs ds : List QueueConfig) (now later : ℕ) (locked held : ℕ → Bool)
    (p q : ClaimParams) (t t' t'' w w' : List Job) (k k' : Job)
    → IsValid next t
    → claim_jobs cs now locked p t ≡ ok (t', w)
    → claim_jobs ds later held q t' ≡ ok (t'', w')
    → In k w
    → In k' w'
    → k.id ≢ k'.id
unfolding claim_jobs
claim_jobs_disjoint {next} cs ds now later locked held p q t t' t'' w w' k k' v h h' m m' e =
    let v' = claim_by-IsValid claim_order next cs now locked p t t' w h v in
    let (j, _, _, _, from, here) = claim_jobs_row cs now locked p t t' w v h k m in
    let (j', there, el, _, from', _) = claim_jobs_row ds later held q t' t'' w' v' h' k' m' in
    let same : k ≡ j' =
      In-id_eq t' k j' v'.ids here there
        (e ∙ ap (λ (x : Job). x.id) from' ∙ claimed-id later q.worker_id j') in
    cc (
      el.state,
      ap (λ (x : Job). is_available x.state) same,
      ap (λ (x : Job). is_available x.state) from,
      claimed_not_available now p.worker_id j,
    )
