-- ===== src/Sql/Report/Fence.antt =====
-- Sql.Report: the reports as one family behind the fence.
use pgjobq.Base.{
  ◌⊎◌, inl, inr, All, In-All, ℕ, ◌≡◌, refl, inl, inr, Bool, true, false, ◌&&◌, some, List, [], ◌∷◌,
  map, arith, where_, In, ◌∙◌, sym, Bool-cases,
}
use pgjobq.Types.{Job, is_running, is_active}
use pgjobq.Table.{Result, ok, update, update_where, check_row, key_eq, is_some}
use pgjobq.Table.Update.{update_where-In}
use pgjobq.Table.Keys.{KeepsKeys}
use pgjobq.Table.Valid.{IsValid, update_valid, update_misses, update-IsValid}
use pgjobq.Table.Ids.{where_one}
use pgjobq.Sql.Report.{
  FenceParams, owned, completed, complete_job, FailParams, failed, fail_job, extended,
  heartbeat_job, acknowledged, acknowledge_cancellation, released, release_job,
}

pub data Report : Type 0 where
  completes : FenceParams → Report
  fails : FailParams → Report
  beats : FenceParams → ℕ → Report
  acknowledges : FenceParams → Report
  releases : FenceParams → Report

abbrev pub fence_of : Report → FenceParams
fence_of (completes p) = p
fence_of (fails p) = p.fence
fence_of (beats p _) = p
fence_of (acknowledges p) = p
fence_of (releases p) = p

-- The statement of a report.
unfoldable pub send : ℕ → Report → List Job → Result (List Job × List Job)
send now (completes p) t = complete_job now p t
send now (fails p) t = fail_job now p t
send now (beats p secs) t = heartbeat_job now p secs t
send now (acknowledges p) t = acknowledge_cancellation now p t
send now (releases p) t = release_job now p t

-- The WHERE and the SET clause of a report.
unfoldable pub takes : Report → Job → Bool
takes (completes p) j = owned p j
takes (fails p) j = owned p.fence j
takes (beats p _) j = owned p j
takes (acknowledges p) j = owned p j && is_some j.cancel_requested_at
takes (releases p) j = owned p j

unfoldable pub written : ℕ → Report → Job → Job
written now (completes p) j = completed now j
written now (fails p) j = failed now p j
written now (beats p secs) j = extended now secs j
written now (acknowledges p) j = acknowledged now j
written now (releases p) j = released now j

pub send-update :
    (now : ℕ) (r : Report) (t : List Job) → send now r t ≡ update (takes r) (written now r) t
unfolding send takes written complete_job fail_job heartbeat_job acknowledge_cancellation
    release_job
send-update now (completes p) t = refl
send-update now (fails p) t = refl
send-update now (beats p secs) t = refl
send-update now (acknowledges p) t = refl
send-update now (releases p) t = refl

pub takes-owned : (r : Report) (j : Job) → takes r j ≡ true → owned (fence_of r) j ≡ true
unfolding takes
takes-owned (completes p) j h = h
takes-owned (fails p) j h = h
takes-owned (beats p _) j h = h
takes-owned (acknowledges p) j h = ground arith
takes-owned (releases p) j h = h

-- Whom the fence lets through.
pub owned-eq :
    (p : FenceParams) (j : Job)
    → owned p j ≡ true
    → (j.id ≡ p.id)
      × (is_running j.state ≡ true)
      × (key_eq j.worker_id (some p.worker_id) ≡ true)
      × (j.attempt ≡ p.attempt)
unfolding owned
owned-eq p j h = ground arith

pub written-id : (now : ℕ) (r : Report) (j : Job) → (written now r j).id ≡ j.id
unfolding written completed failed extended acknowledged released
written-id now (completes p) j = refl
written-id now (fails p) j = refl
written-id now (beats p secs) j = refl
written-id now (acknowledges p) j = refl
written-id now (releases p) j = refl

running_active : (j : Job) → is_running j.state ≡ true → is_active j.state ≡ true
running_active j h = ground arith

written-KeepsKeys :
    (now : ℕ) (r : Report) (j : Job) → takes r j ≡ true → KeepsKeys j (written now r j)
unfolding written completed failed extended acknowledged released
written-KeepsKeys now (completes p) j h = record {
  queue = refl;
  idempotency_key = refl;
  unique_key = refl;
  active = λ e. cc;
}
written-KeepsKeys now (fails p) j h = record {
  queue = refl;
  idempotency_key = refl;
  unique_key = refl;
  active = λ _. running_active j (owned-eq _ j (takes-owned (fails p) j h)).1;
}
written-KeepsKeys now (beats p secs) j h = record {
  queue = refl;
  idempotency_key = refl;
  unique_key = refl;
  active = λ e. e;
}
written-KeepsKeys now (acknowledges p) j h = record {
  queue = refl;
  idempotency_key = refl;
  unique_key = refl;
  active = λ e. cc;
}
written-KeepsKeys now (releases p) j h = record {
  queue = refl;
  idempotency_key = refl;
  unique_key = refl;
  active = λ _. running_active j (owned-eq _ j (takes-owned (releases p) j h)).1;
}

written-check :
    (now : ℕ) (r : Report) (j : Job)
    → takes r j ≡ true
    → check_row j ≡ true
    → check_row (written now r j) ≡ true
unfolding written completed failed extended acknowledged released check_row
written-check now (completes p) j h c = ground arith
written-check now (fails p) j h c = ground arith
written-check now (beats p secs) j h c = ground arith
written-check now (acknowledges p) j h c = ground arith
written-check now (releases p) j h c = ground arith

-- On a valid table no report meets a constraint: it always goes through.
pub send_total :
    {next : ℕ} (now : ℕ) (r : Report) (t : List Job)
    → IsValid next t
    → send now r t
      ≡ ok (update_where (takes r) (written now r) t, map (written now r) (where_ (takes r) t))
send_total now r t v =
    send-update now r t
    ∙ update_valid (takes r) (written now r) t v (λ j h c. written-check now r j h c)
        (λ j h. written-KeepsKeys now r j h)

pub send-IsValid :
    (next now : ℕ) (r : Report) (t t' w : List Job)
    → send now r t ≡ ok (t', w)
    → IsValid next t
    → IsValid next t'
send-IsValid next now r t t' w h v =
    update-IsValid next (takes r) (written now r) t t' w (written-id now r)
      (sym (send-update now r t) ∙ h) v

-- On a valid table a report whose fence no row meets changes nothing and returns no row.
pub send_fenced :
    {next : ℕ} (now : ℕ) (r : Report) (t : List Job)
    → IsValid next t
    → ((j : Job) → In j t → owned (fence_of r) j ≡ false)
    → send now r t ≡ ok (t, [])
send_fenced now r t v out = send-update now r t ∙ update_misses (takes r) (written now r) t v miss
  where
    miss : (j : Job) → In j t → takes r j ≡ false
    miss j m = elim (Bool-cases (takes r j)) [ inl y ↦ cc (out j m, takes-owned r j y) | inr n ↦ n ]

-- On a valid table a report that takes the row j writes that row alone: the result is its image,
-- which is in the new table, and every row of another id is there as it was.
pub send_owner :
    {next : ℕ} (now : ℕ) (r : Report) (t : List Job) (j : Job)
    → IsValid next t
    → In j t
    → takes r j ≡ true
    → (t' : List Job) × (send now r t ≡ ok (t', written now r j ∷ []))
      × In (written now r j) t'
      × All (λ k. (k.id ≡ j.id) ⊎ In k t') t
send_owner now r t j v m h = (
  update_where (takes r) (written now r) t,
  rw one at (send_total now r t v),
  rw h at (update_where-In (takes r) (written now r) t j m),
  In-All _ t other,
)
  where
    same : (k : Job) → takes r k ≡ true → k.id ≡ j.id
    same k y =
        (owned-eq (fence_of r) k (takes-owned r k y)).0
        ∙ sym (owned-eq (fence_of r) j (takes-owned r j h)).0

    one : where_ (takes r) t ≡ j ∷ []
    one = where_one (takes r) t j v.ids m h same

    other : (k : Job) → In k t → (k.id ≡ j.id) ⊎ In k (update_where (takes r) (written now r) t)
    other k n = elim (Bool-cases (takes r k)) [
      | inl y ↦ inl (same k y)
      | inr x ↦ inr (rw x at (update_where-In (takes r) (written now r) t k n))
    ]
