-- ===== src/Client/Admin/Cancel.antt =====
-- Client.Admin: `cancel`, for each state of the job.
use pgjobq.Base.{
  ℕ, ◌≡◌, refl, ap, inl, inr, String, Bool, true, false, ◌&&◌, some, List, [], ◌∷◌, In, arith,
  Bool-cases, ◌==◌, ==_iff,
}
use pgjobq.Types.{Job, JobState, running, is_available, is_running, is_terminal}
use pgjobq.Table.{Elsewhere, ok, update, update_where, check_row, is_some}
use pgjobq.Table.Keys.{KeepsKeys}
use pgjobq.Table.Ids.{Distinct, In-id_eq, where_one}
use pgjobq.Table.Update.{update_where-In}
use pgjobq.Table.Valid.{IsValid, update_valid, update_misses}
use pgjobq.StateMachine.{permitted_targets}
use pgjobq.Sql.Query.{
  get_job, cancelled_now, cancel_available_job, cancel_requested, request_cancel_running_job,
}
use pgjobq.Client.{invalid_transition, Answer, returns, throws}
use pgjobq.Client.Admin.{Store, CancelResult, cancel, cancelled_or, requested_or}

-- An UPDATE of the row with an id, under a guard that the row meets.
module _ {next : ℕ} (guard : Job → Bool) (f : Job → Job) (t : List Job) (j : Job)
    (v : IsValid next t) (m : In j t) where
  abbrev aims : Job → Bool
  aims k = k.id == j.id && guard k

  aims-same : (k : Job) → aims k ≡ true → k.id ≡ j.id
  aims-same k h = ground (arith, ==_iff k.id j.id)

  update_one :
      guard j ≡ true
      → ((k : Job) → aims k ≡ true → check_row k ≡ true → check_row (f k) ≡ true)
      → ((k : Job) → aims k ≡ true → KeepsKeys k (f k))
      → (t' : List Job) × (update aims f t ≡ ok (t', f j ∷ [])) × In (f j) t'
  update_one g good keep =
      let hit : aims j ≡ true = rw ((==_iff j.id j.id).1 refl) g in
      (
        update_where aims f t,
        rw (where_one aims t j v.ids m hit aims-same) at (update_valid aims f t v good keep),
        rw hit at (update_where-In aims f t j m),
      )

  update_none : guard j ≡ false → update aims f t ≡ ok (t, [])
  update_none g = update_misses aims f t v (λ k r. miss k r)
    where
      miss : (k : Job) → In k t → aims k ≡ false
      miss k r = elim (Bool-cases (aims k)) [
        | inr n ↦ n
        | inl y ↦
            let same : k ≡ j = In-id_eq t k j v.ids r m (aims-same k y) in
            let met : guard k ≡ true = ground (arith, y) in absurd (cc (g, ap guard same, met))
      ]

-- A call that nobody interrupts, all of it at one time.
abbrev pub undisturbed : ℕ → Elsewhere
undisturbed now = record { clock = λ n. now; between = λ n t. t }

get_job-In : (t : List Job) (j : Job) → Distinct t → In j t → get_job j.id t ≡ some j
unfolding get_job
get_job-In [] j d m = absurd m
get_job-In (i ∷ t) j d (inl e) = rw (e, (==_iff i.id i.id).1 refl) refl
get_job-In (i ∷ t) j d (inr m) = elim (Bool-cases (i.id == j.id)) [
  | inl y ↦ absurd (d.0 j m ((==_iff i.id j.id).0 y))
  | inr n ↦ rw n (get_job-In t j d.1 m)
]

cancelled-check :
    (now : ℕ) (k : Job)
    → is_available k.state ≡ true
    → check_row k ≡ true
    → check_row (cancelled_now now k) ≡ true
unfolding check_row cancelled_now
cancelled-check now k g c = ground arith

requested-check :
    (now : ℕ) (k : Job) → check_row k ≡ true → check_row (cancel_requested now k) ≡ true
unfolding check_row cancel_requested
requested-check now k c = ground arith

cancelled-KeepsKeys : (now : ℕ) (k : Job) → KeepsKeys k (cancelled_now now k)
unfolding cancelled_now
cancelled-KeepsKeys now k = record {
  queue = refl;
  idempotency_key = refl;
  unique_key = refl;
  active = λ e. cc;
}

requested-KeepsKeys : (now : ℕ) (k : Job) → KeepsKeys k (cancel_requested now k)
unfolding cancel_requested
requested-KeepsKeys now k = record {
  queue = refl;
  idempotency_key = refl;
  unique_key = refl;
  active = λ e. e;
}

requested_some : (now : ℕ) (k : Job) → is_some (cancel_requested now k).cancel_requested_at ≡ true
unfolding cancel_requested
requested_some now k = ground arith

running_state : (s : JobState) → is_running s ≡ true → s ≡ running
running_state s h = ground arith

finished_state :
    (s : JobState) → is_available s ≡ false → is_running s ≡ false → is_terminal s ≡ true
finished_state s h f = ground arith

id_kept : (now : ℕ) (j : Job) → (cancelled_now now j).id ≡ j.id
unfolding cancelled_now
id_kept now j = refl

state_set : (now : ℕ) (j : Job) → (cancelled_now now j).state ≡ JobState.cancelled
unfolding cancelled_now
state_set now j = refl

id_left : (now : ℕ) (j : Job) → (cancel_requested now j).id ≡ j.id
unfolding cancel_requested
id_left now j = refl

state_left :
    (now : ℕ) (j : Job)
    → is_running j.state ≡ true
    → is_running (cancel_requested now j).state ≡ true
unfolding cancel_requested
state_left now j h = h

-- What a cancellation of j made of the table t.
pub data Cancels (j : Job) (t : List Job) : Answer CancelResult × Store → Type 0 where
  at_once :
      {s' : Store} (k : Job)
      → is_available j.state ≡ true
      → In k s'.rows
      → k.id ≡ j.id
      → k.state ≡ JobState.cancelled
      → Cancels j t (returns (JobState.cancelled, true), s')
  asked :
      {s' : Store} (k : Job)
      → is_running j.state ≡ true
      → In k s'.rows
      → k.id ≡ j.id
      → k.state ≡ running
      → is_some k.cancel_requested_at ≡ true
      → Cancels j t (returns (running, false), s')
  over :
      {s' : Store}
      → is_terminal j.state ≡ true
      → s'.rows ≡ t
      → Cancels j t (
        throws (
            invalid_transition (record {
              from = j.state;
              to = JobState.cancelled;
              permitted = permitted_targets j.state;
            })),
        s',
      )

-- On a valid table that nobody else touches, `cancel` of a job that is there: an available job is
-- cancelled, a running one is only asked to stop and goes on running, and for a finished one the call
-- throws the invalid transition, with the targets that its state permits, and changes no row.
pub cancel-Cancels :
    {next : ℕ} (now : ℕ) (actor : String) (s : Store) (j : Job)
    → IsValid next s.rows
    → In j s.rows
    → Cancels j s.rows (cancel (undisturbed now) j.id actor s)
unfolding cancel cancel_available_job request_cancel_running_job cancelled_or requested_or
cancel-Cancels now actor s j v m = elim (Bool-cases (is_available j.state)) [
  | inl y ↦
      let (t', e, here) =
        update_one (λ k. is_available k.state) (cancelled_now now) s.rows j v m y
          (λ k h c. cancelled-check now k (ground arith) c) (λ k h. cancelled-KeepsKeys now k) in
      rw e (at_once (cancelled_now now j) y here (id_kept now j) (state_set now j))
  | inr n ↦ elim (Bool-cases (is_running j.state)) [
    | inl y ↦
        let (t', e, here) =
          update_one (λ k. is_running k.state) (cancel_requested now) s.rows j v m y
            (λ k h c. requested-check now k c) (λ k h. requested-KeepsKeys now k) in
        rw (update_none (λ k. is_available k.state) (cancelled_now now) s.rows j v m n, e)
          (asked (cancel_requested now j) y here (id_left now j)
            (running_state _ (state_left now j y)) (requested_some now j))
    | inr x ↦
        rw
          (
            update_none (λ k. is_available k.state) (cancelled_now now) s.rows j v m n,
            update_none (λ k. is_running k.state) (cancel_requested now) s.rows j v m x,
            get_job-In s.rows j v.ids m,
          )
          (over (finished_state j.state n x) refl)
  ]
]
