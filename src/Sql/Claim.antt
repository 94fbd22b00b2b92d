-- ===== src/Sql/Claim.antt =====
-- packages/core/src/sql/claim.sql.ts: the claim statement and its variant with priority aging.
pub mod Order
pub mod Candidates
pub mod Best
pub mod Spent
use pgjobq.Base.{
  ℕ, ◌+◌, ◌-◌, ◌*◌, ◌/◌, String, Bool, true, false, ◌&&◌, not, Option, none, some, List, [], ◌∷◌,
  map, ltb, leb, ◌==◌, str_eq, if◌then◌else◌, where_, any, order_by, take,
}
use pgjobq.Base.Int.{ℤ, pos, ◌+ℤ◌, ltb_ℤ}
use pgjobq.Types.{Job, ClaimedJob, QueueConfig, JobState, is_available}
use pgjobq.Table.{Result, ok, err, update, among}

pub record ClaimParams : Type 0 where
  pub queue : String
  pub limit : ℕ
  pub worker_id : String

-- `COALESCE(qc.paused, false)` of the LEFT JOIN on the queue's name, the primary key.
unfoldable pub paused : List QueueConfig → String → Bool
paused [] q = false
paused (c ∷ cs) q = if str_eq c.queue q then c.paused else paused cs q

-- The WHERE clause of the candidates.
unfoldable pub eligible : List QueueConfig → ℕ → String → Job → Bool
unfolding paused
eligible cs now q j =
    str_eq j.queue q && is_available j.state && leb j.run_at now && not (paused cs j.queue)

-- By run_at, then by id.
abbrev pub older : Job → Job → Bool
older j k =
    if ltb j.run_at k.run_at then true else if ltb k.run_at j.run_at then false else leb j.id k.id

-- ORDER BY j.priority DESC, j.run_at, j.id
unfoldable pub claim_order : Job → Job → Bool
claim_order j k =
    if ltb_ℤ k.priority j.priority
    then true
    else if ltb_ℤ j.priority k.priority
    then false
    else older j k

-- One point for each aging threshold, of seconds, that passed since the job became eligible.
unfoldable pub aged_priority : ℕ → ℕ → Job → ℤ
aged_priority now threshold j = j.priority +ℤ pos ((now - j.run_at) / (1000 * threshold))

unfoldable pub aging_order : ℕ → ℕ → Job → Job → Bool
aging_order now threshold j k =
    let a = aged_priority now threshold j in
    let b = aged_priority now threshold k in
    if ltb_ℤ b a then true else if ltb_ℤ a b then false else older j k

-- LIMIT stands above the row locks, so that a row that is skipped does not count.
unfoldable pub candidates :
    (Job → Job → Bool) → List QueueConfig → ℕ → (ℕ → Bool) → ClaimParams → List Job → List Job
candidates order cs now locked p t =
    take p.limit
      (where_ (λ j. not (locked j.id)) (order_by order (where_ (eligible cs now p.queue) t)))

-- The SET clause.
unfoldable pub claimed : ℕ → String → Job → Job
claimed now worker j = record j {
  state = JobState.running;
  attempt = j.attempt + 1;
  worker_id = some worker;
  started_at = some now;
  lease_expires_at = some (now + 1000 * j.lease_seconds);
  updated_at = now;
}

-- The statement, over the order of its candidates. The rows written come in the table's order:
-- Postgres promises none.
unfoldable pub claim_by :
    (Job → Job → Bool)
    → List QueueConfig
    → ℕ
    → (ℕ → Bool)
    → ClaimParams
    → List Job
    → Result (List Job × List Job)
claim_by order cs now locked p t =
    update (among (candidates order cs now locked p t)) (claimed now p.worker_id) t

unfoldable pub claim_jobs :
    List QueueConfig → ℕ → (ℕ → Bool) → ClaimParams → List Job → Result (List Job × List Job)
claim_jobs cs now locked p t = claim_by claim_order cs now locked p t

unfoldable pub claim_jobs_with_aging :
    List QueueConfig → ℕ → (ℕ → Bool) → ClaimParams → ℕ → List Job → Result (List Job × List Job)
claim_jobs_with_aging cs now locked p threshold t =
    claim_by (aging_order now threshold) cs now locked p t

-- RETURNING, and `toClaimedJob` of sql/rows.ts.
unfoldable pub to_claimed_job : Job → ClaimedJob
to_claimed_job r = record {
  id = r.id;
  queue = r.queue;
  type = r.type;
  payload = r.payload;
  metadata = r.metadata;
  attempt = r.attempt;
  max_attempts = r.max_attempts;
  lease_seconds = r.lease_seconds;
  lease_expires_at = r.lease_expires_at;
  trace_context = r.trace_context;
  enqueued_at = r.enqueued_at;
}
