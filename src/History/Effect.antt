-- ===== src/History/Effect.antt =====
-- What a statement does to one row: the life of a job, with all but its state, its attempt and its
-- worker left out.
use pgjobq.Base.{
  ℕ, ◌+◌, ◌≡◌, refl, ap, String, Bool, true, false, ◌&&◌, ◌||◌, some, List, arith, any, leb, ◌==◌,
  if◌then◌else◌, In,
}
use pgjobq.Types.{Job, JobState, available, running, dead, is_available, is_running, is_dead}
use pgjobq.StateMachine.{can_transition}
use pgjobq.Table.{update, among}
use pgjobq.Table.Valid.{IsValid}
use pgjobq.Sql.Claim.{
  claim_order, aging_order, candidates, claimed, claim_by, claim_jobs, claim_jobs_with_aging,
}
use pgjobq.Sql.Claim.Order.{
  claim_order-Total, claim_order-Transitive, aging_order-Total, aging_order-Transitive,
}
use pgjobq.Sql.Claim.Candidates.{among_candidates, In-candidates}
use pgjobq.Sql.Report.{completed, failed, extended, acknowledged, released}
use pgjobq.Sql.Report.Fence.{
  Report, completes, fails, beats, acknowledges, releases, send-update, takes, written, takes-owned,
  owned-eq, fence_of,
}
use pgjobq.Sql.Reap.{expired_rows, reaped, reap_expired_leases}
use pgjobq.Sql.Reap.Rows.{In-expired_rows, among_expired}
use pgjobq.Sql.Query.{
  cancelled_now, cancel_available_job, cancel_requested, request_cancel_running_job, advanced,
  retry_job_now, replayed, replay_dead_job, replay_dead_jobs,
}
use pgjobq.History.{
  Op, enqueues, claims, claims_aging, reports, reaps, cancels, requests_cancel, retries, replays,
  replays_many, prunes, purges, exec, on_rows, worker_of, is_replay,
}
use pgjobq.Sql.Enqueue.{Jobs}

pub data Effect (op : Op) (j k : Job) : Type 0 where
  hold : k.state ≡ j.state → k.attempt ≡ j.attempt → k.worker_id ≡ j.worker_id → Effect op j k
  start :
      (w : String)
      → worker_of op ≡ some w
      → j.state ≡ available
      → k.state ≡ running
      → k.attempt ≡ j.attempt + 1
      → k.worker_id ≡ some w
      → Effect op j k
  leave :
      can_transition j.state k.state ≡ true
      → is_running k.state ≡ false
      → k.attempt ≡ j.attempt
      → Effect op j k
  restart :
      is_replay op ≡ true → j.state ≡ dead → k.state ≡ available → k.attempt ≡ 0 → Effect op j k

-- The statements that are an UPDATE: which rows they match, and what they make of one.
unfoldable pub selects : ℕ → Op → List Job → Job → Bool
selects now (enqueues _) t j = false
selects now (claims cs locked p) t j = among (candidates claim_order cs now locked p t) j
selects now (claims_aging cs locked p threshold) t j =
    among (candidates (aging_order now threshold) cs now locked p t) j
selects now (reports r) t j = takes r j
selects now (reaps locked limit delay) t j = among (expired_rows now locked limit t) j
selects now (cancels id) t j = j.id == id && is_available j.state
selects now (requests_cancel id) t j = j.id == id && is_running j.state
selects now (retries id) t j = j.id == id && is_available j.state
selects now (replays id) t j = j.id == id && is_dead j.state
selects now (replays_many wanted) t j = any (λ i. i == j.id) wanted && is_dead j.state
selects now (prunes _ _ _) t j = false
selects now (purges _ _ _ _) t j = false

unfoldable pub image : ℕ → Op → Job → Job
image now (claims cs locked p) j = claimed now p.worker_id j
image now (claims_aging cs locked p threshold) j = claimed now p.worker_id j
image now (reports r) j = written now r j
image now (reaps locked limit delay) j = reaped now delay j
image now (cancels id) j = cancelled_now now j
image now (requests_cancel id) j = cancel_requested now j
image now (retries id) j = advanced now j
image now (replays id) j = replayed now j
image now (replays_many wanted) j = replayed now j
image now _ j = j

pub image-id : (now : ℕ) (op : Op) (j : Job) → (image now op j).id ≡ j.id
unfolding image claimed written completed failed extended acknowledged released reaped cancelled_now
    cancel_requested advanced replayed
image-id now (claims cs locked p) j = refl
image-id now (reports (completes p)) j = refl
image-id now (reports (fails p)) j = refl
image-id now (reports (beats p secs)) j = refl
image-id now (reports (acknowledges p)) j = refl
image-id now (reports (releases p)) j = refl
image-id now _ j = refl

abbrev pub is_update : Op → Bool
is_update (enqueues _) = false
is_update (prunes _ _ _) = false
is_update (purges _ _ _ _) = false
is_update _ = true

pub exec-update :
    (now : ℕ) (op : Op) (s : Jobs)
    → is_update op ≡ true
    → exec now op s ≡ on_rows s (update (selects now op s.rows) (image now op) s.rows)
unfolding exec selects image claim_jobs claim_jobs_with_aging claim_by reap_expired_leases
    cancel_available_job request_cancel_running_job retry_job_now replay_dead_job replay_dead_jobs
exec-update now (enqueues r) s h = cc
exec-update now (claims cs locked p) s h = refl
exec-update now (claims_aging cs locked p threshold) s h = refl
exec-update now (reports r) s h = ap (on_rows s) (send-update now r s.rows)
exec-update now (reaps locked limit delay) s h = refl
exec-update now (cancels id) s h = refl
exec-update now (requests_cancel id) s h = refl
exec-update now (retries id) s h = refl
exec-update now (replays id) s h = refl
exec-update now (replays_many wanted) s h = refl
exec-update now (prunes p cs locked) s h = cc
exec-update now (purges locked queue states limit) s h = cc

available_eq : (s : JobState) → is_available s ≡ true → s ≡ available
available_eq s h = ground arith

dead_eq : (s : JobState) → is_dead s ≡ true → s ≡ dead
dead_eq s h = ground arith

running_eq : (s : JobState) → is_running s ≡ true → s ≡ running
running_eq s h = ground arith

claim-Effect :
    (op : Op) (now : ℕ) (w : String) (j : Job)
    → worker_of op ≡ some w
    → is_available j.state ≡ true
    → Effect op j (claimed now w j)
unfolding claimed
claim-Effect op now w j e a = start w e (available_eq j.state a) refl refl refl

ends : (b : Bool) → can_transition running (if b then dead else available) ≡ true
unfolding can_transition
ends true = refl
ends false = refl

ended : (b : Bool) → is_running (if b then dead else available) ≡ false
ended true = refl
ended false = refl

written-Effect :
    (op : Op) (now : ℕ) (r : Report) (j : Job) → takes r j ≡ true → Effect op j (written now r j)
unfolding written completed failed extended acknowledged released can_transition
written-Effect op now r j h =
    go r (running_eq j.state (owned-eq (fence_of r) j (takes-owned r j h)).1)
  where
    go : (q : Report) → j.state ≡ running → Effect op j (written now q j)
    go (completes p) e = leave (rw e) refl refl
    go (fails p) e =
        let last = p.non_retryable || leb j.max_attempts j.attempt in
        leave (rw e (ends last)) (ended last) refl
    go (beats p secs) e = hold refl refl refl
    go (acknowledges p) e = leave (rw e) refl refl
    go (releases p) e = leave (rw e) refl refl

reaped-Effect :
    (op : Op) (now delay : ℕ) (j : Job)
    → is_running j.state ≡ true
    → Effect op j (reaped now delay j)
unfolding reaped can_transition
reaped-Effect op now delay j h =
    let e = running_eq j.state h in
    let last = leb j.max_attempts j.attempt in leave (rw e (ends last)) (ended last) refl

second : (a b : Bool) → (a && b) ≡ true → b ≡ true
second a b h = ground arith

replayed-Effect :
    (op : Op) (now : ℕ) (j : Job)
    → is_replay op ≡ true
    → is_dead j.state ≡ true
    → Effect op j (replayed now j)
unfolding replayed
replayed-Effect op now j r d = restart r (dead_eq j.state d) refl refl

cancelled-Effect :
    (op : Op) (now : ℕ) (j : Job) → is_available j.state ≡ true → Effect op j (cancelled_now now j)
unfolding cancelled_now can_transition
cancelled-Effect op now j a = let e = available_eq j.state a in leave (rw e) refl refl

-- Every UPDATE of a valid table takes each row that it matches one step through a job's life.
pub image-Effect :
    {next : ℕ} (now : ℕ) (op : Op) (t : List Job) (j : Job)
    → IsValid next t
    → In j t
    → selects now op t j ≡ true
    → Effect op j (image now op j)
unfolding selects image cancel_requested advanced
image-Effect now (enqueues r) t j v m h = cc
image-Effect now (claims cs locked p) t j v m h =
    claim-Effect _ now p.worker_id j refl
      (In-candidates claim_order claim_order-Total claim_order-Transitive cs now locked p t j (
        among_candidates claim_order claim_order-Total claim_order-Transitive cs now locked p t j
          v.ids m h)).1.state
image-Effect now (claims_aging cs locked p threshold) t j v m h =
    let tot = aging_order-Total now threshold in
    let tr = aging_order-Transitive now threshold in
    claim-Effect _ now p.worker_id j refl
      (In-candidates (aging_order now threshold) tot tr cs now locked p t j
        (among_candidates (aging_order now threshold) tot tr cs now locked p t j v.ids m h)).1.state
image-Effect now (reports r) t j v m h = written-Effect _ now r j h
image-Effect now (reaps locked limit delay) t j v m h =
    reaped-Effect _ now delay j
      (In-expired_rows now locked limit t j
        (among_expired now locked limit t j v.ids m h)).1.running
image-Effect now (cancels id) t j v m h = cancelled-Effect _ now j (second _ _ h)
image-Effect now (requests_cancel id) t j v m h = hold refl refl refl
image-Effect now (retries id) t j v m h = hold refl refl refl
image-Effect now (replays id) t j v m h = replayed-Effect _ now j refl (second _ _ h)
image-Effect now (replays_many wanted) t j v m h = replayed-Effect _ now j refl (second _ _ h)
image-Effect now (prunes p cs locked) t j v m h = cc
image-Effect now (purges locked queue states limit) t j v m h = cc
