-- ===== src/Sql/Claim/Candidates.antt =====
-- Sql.Claim: the candidates, against the rows that are eligible and free.
use pgjobq.Base.{
  length-take-all, length-where-le, length-order_by, order_by, map-In, ◌<◌, ℕ, ◌≤◌, ◌≡◌, refl, ◌∙◌,
  ◌⊎◌, inl, inr, String, Bool, true, false, not, List, map, arith, where_, length, length-map,
  length-take-le, In, In-where, where-In, In-order_by, order_by-In, In-take, str_eq, ap,
}
use pgjobq.Base.Sorted.{Total, Transitive, order_by-IsSorted, where-IsSorted, take_best}
use pgjobq.Types.{Job, QueueConfig, is_available}
use pgjobq.Table.{ok, among}
use pgjobq.Table.Update.{update-ok, In-written, update_where-In}
use pgjobq.Table.Ids.{Distinct, where-Distinct}
use pgjobq.Table.Valid.{IsValid, update-IsValid}
use pgjobq.Table.Selection.{
  order_by-Distinct, take-Distinct, among_selected, among-In, length-where_among,
}
use pgjobq.Sql.Claim.{ClaimParams, paused, eligible, candidates, claimed, claim_by}

not-true : (b : Bool) → not b ≡ true → b ≡ false
not-true b h = ground arith

-- What a row must be to be claimed.
pub record IsEligible (cs : List QueueConfig) (now : ℕ) (q : String) (j : Job) : Type 0 where
  pub queue : str_eq j.queue q ≡ true
  pub state : is_available j.state ≡ true
  pub due : j.run_at ≤ now
  pub resumed : paused cs j.queue ≡ false

pub eligible_lem :
    (cs : List QueueConfig) (now : ℕ) (q : String) (j : Job)
    → eligible cs now q j ≡ true
    → IsEligible cs now q j
unfolding eligible
eligible_lem cs now q j h = ground arith

pub IsEligible_eligible :
    (cs : List QueueConfig) (now : ℕ) (q : String) (j : Job)
    → IsEligible cs now q j
    → eligible cs now q j ≡ true
unfolding eligible
IsEligible_eligible cs now q j h = ground arith

module _ (order : Job → Job → Bool) (tot : Total order) (tr : Transitive order)
    (cs : List QueueConfig) (now : ℕ) (locked : ℕ → Bool) (p : ClaimParams) where
  abbrev pub cands : List Job → List Job
  cands t = candidates order cs now locked p t

  pub In-candidates :
      (t : List Job) (j : Job)
      → In j (cands t)
      → In j t × IsEligible cs now p.queue j × (locked j.id ≡ false)
  unfolding candidates
  In-candidates t j m =
      let (r, free) = In-where (λ (k : Job). not (locked k.id)) _ j (In-take p.limit _ j m) in
      let (r', e) = In-where (eligible cs now p.queue) t j (In-order_by order _ j r) in
      (r', eligible_lem cs now p.queue j e, not-true (locked j.id) free)

  pub candidates-Distinct : (t : List Job) → Distinct t → Distinct (cands t)
  unfolding candidates
  candidates-Distinct t d =
      take-Distinct p.limit _
        (where-Distinct _ _ (order_by-Distinct order _ (where-Distinct _ t d)))

  pub length-candidates-le : (t : List Job) → length (cands t) ≤ p.limit
  unfolding candidates
  length-candidates-le t = length-take-le p.limit _

  pub candidates_best :
      (t : List Job) (j : Job)
      → In j t
      → IsEligible cs now p.queue j
      → locked j.id ≡ false
      → In j (cands t)
        ⊎ ((length (cands t) ≡ p.limit) × ((x : Job) → In x (cands t) → order x j ≡ true))
  unfolding candidates
  candidates_best t j m e free =
      take_best order p.limit _ j (where-IsSorted order _ _ (order_by-IsSorted order tot tr _)) (
        where-In (λ (k : Job). not (locked k.id)) _ j
          (order_by-In order _ j
            (where-In (eligible cs now p.queue) t j m (IsEligible_eligible cs now p.queue j e)))
          (rw free))

  pub among_candidates :
      (t : List Job) (j : Job) → Distinct t → In j t → among (cands t) j ≡ true → In j (cands t)
  among_candidates t j d m h = among_selected (cands t) t j d (λ k n. (In-candidates t k n).0) m h

  length-written :
      (t : List Job)
      → Distinct t
      → length (map (claimed now p.worker_id) (where_ (among (cands t)) t)) ≡ length (cands t)
  length-written t d =
      length-map (claimed now p.worker_id) (where_ (among (cands t)) t)
      ∙ length-where_among (cands t) t d (candidates-Distinct t d) (λ k n. (In-candidates t k n).0)

  pub length-candidates-eligible :
      (t : List Job) → length (cands t) ≤ length (where_ (eligible cs now p.queue) t)
  unfolding candidates
  length-candidates-eligible t = omega (
    arith,
    length-take-all p.limit (
        where_ (λ (k : Job). not (locked k.id))
          (order_by order (where_ (eligible cs now p.queue) t))),
    length-where-le (λ (k : Job). not (locked k.id))
        (order_by order (where_ (eligible cs now p.queue) t)),
    length-order_by order (where_ (eligible cs now p.queue) t),
  )

  -- With fewer eligible rows than the limit, each one that is not locked is claimed and returned.
  pub claim_by_room :
      {next : ℕ} (t t' w : List Job) (j : Job)
      → IsValid next t
      → claim_by order cs now locked p t ≡ ok (t', w)
      → length (where_ (eligible cs now p.queue) t) < p.limit
      → In j t
      → IsEligible cs now p.queue j
      → locked j.id ≡ false
      → In (claimed now p.worker_id j) t' × In (claimed now p.worker_id j) w
  unfolding claim_by
  claim_by_room t t' w j v h room m e free = elim (candidates_best t j m e free) [
    | inl taken ↦ (
      rw ((update-ok _ _ t t' w h).0) (
          rw (among-In (cands t) j taken) at
            (update_where-In (among (cands t)) (claimed now p.worker_id) t j m)),
      rw ((update-ok _ _ t t' w h).1) (
          map-In (claimed now p.worker_id) (where_ (among (cands t)) t) j
            (where-In (among (cands t)) t j m (among-In (cands t) j taken))),
    )
    | inr (full, _) ↦ absurd (omega (arith, full, room, length-candidates-eligible t))
  ]

  pub claim_by_sound :
      {next : ℕ} (t t' w : List Job)
      → IsValid next t
      → claim_by order cs now locked p t ≡ ok (t', w)
      → (length w ≤ p.limit)
        × ((k : Job)
            → In k w
            → (j : Job) × In j t
              × IsEligible cs now p.queue j
              × (locked j.id ≡ false)
              × (k ≡ claimed now p.worker_id j)
              × In k t')
  unfolding claim_by
  claim_by_sound t t' w v h = (
    omega (
      arith,
      ap length (update-ok _ _ t t' w h).1,
      length-written t v.ids,
      length-candidates-le t,
    ),
    row,
  )
    where
      row :
          (k : Job)
          → In k w
          → (j : Job) × In j t
            × IsEligible cs now p.queue j
            × (locked j.id ≡ false)
            × (k ≡ claimed now p.worker_id j)
            × In k t'
      row k m =
          let (j, r, y, e, here) = In-written _ _ t t' w k h m in
          let (_, el, free) = In-candidates t j (among_candidates t j v.ids r y) in
          (j, r, el, free, e, here)

  pub claim_by_best :
      {next : ℕ} (t t' w : List Job) (j : Job)
      → IsValid next t
      → claim_by order cs now locked p t ≡ ok (t', w)
      → In j t
      → IsEligible cs now p.queue j
      → locked j.id ≡ false
      → In (claimed now p.worker_id j) t'
        ⊎ ((length w ≡ p.limit)
            × ((k : Job)
                → In k w
                → (i : Job) × In i t × (k ≡ claimed now p.worker_id i) × (order i j ≡ true)))
  unfolding claim_by
  claim_by_best t t' w j v h m e free = elim (candidates_best t j m e free) [
    | inl taken ↦ inl (
        rw ((update-ok _ _ t t' w h).0) (
          rw (among-In (cands t) j taken) at
            (update_where-In (among (cands t)) (claimed now p.worker_id) t j m)))
    | inr (full, first) ↦ inr (
      omega (arith, ap length (update-ok _ _ t t' w h).1, full, length-written t v.ids),
      λ k n.
          let (i, r, y, q, _) = In-written _ _ t t' w k h n in
          (i, r, q, first i (among_candidates t i v.ids r y)),
    )
  ]

pub claimed-id : (now : ℕ) (w : String) (j : Job) → (claimed now w j).id ≡ j.id
unfolding claimed
claimed-id now w j = refl

pub claim_by-IsValid :
    (order : Job → Job → Bool) (next : ℕ) (cs : List QueueConfig) (now : ℕ) (locked : ℕ → Bool)
    (p : ClaimParams) (t t' w : List Job)
    → claim_by order cs now locked p t ≡ ok (t', w)
    → IsValid next t
    → IsValid next t'
unfolding claim_by
claim_by-IsValid order next cs now locked p t t' w h v =
    update-IsValid next _ _ t t' w (claimed-id now p.worker_id) h v
