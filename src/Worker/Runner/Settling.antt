-- ===== src/Worker/Runner/Settling.antt =====
-- Worker.Runner: a run's outcome and the job's row.
use pgjobq.Base.{
  if_both, ℕ, ◌≡◌, refl, ◌∙◌, inl, inr, Bool, true, false, ◌||◌, Option, none, some, List, [], ◌∷◌,
  In, arith, any, In-any, any-In, Bool-cases, if◌then◌else◌,
}
use pgjobq.Types.{Job, ClaimedJob, JobState, is_dead, is_running}
use pgjobq.Table.{Elsewhere, Result, ok, err}
use pgjobq.Table.Valid.{IsValid}
use pgjobq.Errors.{Thrown}
use pgjobq.Sql.Report.{
  FenceParams, FailParams, owned, completed, failed, acknowledged, complete_job, fail_job,
  acknowledge_cancellation,
}
use pgjobq.Sql.Report.Fence.{
  Report, completes, fails, acknowledges, send, takes, written, written-id, takes-owned, send_owner,
  send-update,
}
use pgjobq.Table.Valid.{update_misses}
use pgjobq.Worker.Runner.{
  completion_reported, acknowledged_or, is_ownership_lost, is_job_cancelled, failure_reported,
  RunnerOptions, RunOutcome, Flags, fence_for, failure_of, record_failure, report_failure,
  report_completion, report_success, run_job, database_error, succeeded, retried, dead, cancelled,
  ownership_lost,
}

-- A report on a valid table writes no row, or the row that its fence meets.
pub data Sends (now : ℕ) (r : Report) (t : List Job) : Result (List Job × List Job) → Type 0 where
  missed : ((j : Job) → In j t → takes r j ≡ false) → Sends now r t (ok (t, []))
  hit :
      {t' : List Job} (j : Job)
      → In j t
      → takes r j ≡ true
      → In (written now r j) t'
      → Sends now r t (ok (t', written now r j ∷ []))

any_none : (p : Job → Bool) (t : List Job) → any p t ≡ false → (j : Job) → In j t → p j ≡ false
any_none p t h j m = elim (Bool-cases (p j)) [
  | inl y ↦ absurd (cc (any-In p t j m y, h))
  | inr n ↦ n
]

pub send-Sends :
    {next : ℕ} (now : ℕ) (r : Report) (t : List Job) → IsValid next t → Sends now r t (send now r t)
send-Sends now r t v = elim (Bool-cases (any (takes r) t)) [
  | inl y ↦
      let (j, m, h) = In-any (takes r) t y in
      let (t', sent, here, _) = send_owner now r t j v m h in rw sent (hit j m h here)
  | inr n ↦
      let miss = any_none (takes r) t n in
      rw (send-update now r t ∙ update_misses (takes r) (written now r) t v miss) (missed miss)
]

abbrev pub state_after : RunOutcome → JobState
state_after succeeded = JobState.succeeded
state_after retried = JobState.available
state_after dead = JobState.dead
state_after cancelled = JobState.cancelled
state_after ownership_lost = JobState.running

-- What the run's last statement, on the table u, made of it: nothing, or it took the row that the fence owned
-- into the state that the outcome names.
pub data Settles (f : FenceParams) (u : List Job) : Result (List Job × RunOutcome) → Type 0 where
  lost : Settles f u (ok (u, ownership_lost))
  wrote :
      {t' : List Job} {o : RunOutcome} (j k : Job)
      → In j u
      → owned f j ≡ true
      → In k t'
      → k.id ≡ j.id
      → k.attempt ≡ j.attempt
      → k.state ≡ state_after o
      → is_running k.state ≡ false
      → Settles f u (ok (t', o))

-- The tables that a run from the table t sees, if none of its own statements writes: t, and what the
-- others make of them.
pub data Sees (w : Elsewhere) (t : List Job) : List Job → Type 0 where
  first : Sees w t t
  next_of : (n : ℕ) {u : List Job} → Sees w t u → Sees w t (w.between n u)

-- The same, for a run from the table t whose last statement saw one of these tables.
pub SettlesSomewhere :
    ℕ → Elsewhere → List Job → FenceParams → Result (List Job × RunOutcome) → Type 0
SettlesSomewhere next w t f q = (u : List Job) × IsValid next u × Sees w t u × Settles f u q

failed_state :
    (now : ℕ) (p : FailParams) (j : Job)
    → ((failed now p j).state
        ≡ state_after (if is_dead (failed now p j).state then dead else retried))
      × (is_running (failed now p j).state ≡ false)
unfolding failed
failed_state now p j = ground arith

failed-attempt : (now : ℕ) (p : FailParams) (j : Job) → (failed now p j).attempt ≡ j.attempt
unfolding failed
failed-attempt now p j = refl

module _ {next : ℕ} (o : RunnerOptions) (w : Elsewhere) (job : ClaimedJob) (s : List Job)
    (keeps : (n : ℕ) (t : List Job) → IsValid next t → IsValid next (w.between n t)) where
  record_failure-Settles :
      (e : Thrown) (flags : Flags) (t : List Job)
      → IsValid next t
      → Sees w s t
      → SettlesSomewhere next w s (fence_for o job) (record_failure o w job e flags t)
  unfolding record_failure send written failure_of fail_job SettlesSomewhere
  record_failure-Settles e flags t v seen = (
    w.between 3 t,
    keeps 3 t v,
    next_of 3 seen,
    go (send-Sends (w.clock 3) (fails p) (w.between 3 t) (keeps 3 t v)),
  )
    where
      p : FailParams
      p = failure_of o job e flags (w.clock 3)

      go :
          {q : Result (List Job × List Job)}
          → Sends (w.clock 3) (fails p) (w.between 3 t) q
          → Settles (fence_for o job) (w.between 3 t) (failure_reported q)
      go (missed _) = lost
      go (hit j m h here) =
          wrote j _ m (takes-owned (fails p) j h) here (written-id (w.clock 3) (fails p) j)
            (failed-attempt (w.clock 3) p j) (failed_state (w.clock 3) p j).0
            (failed_state (w.clock 3) p j).1

  -- After an acknowledgement: cancelled, or whatever the rest does on the same table.
  acknowledged_or-Settles :
      (now : ℕ) (u : List Job) (rest : List Job → Result (List Job × RunOutcome))
      → IsValid next u
      → Sees w s u
      → SettlesSomewhere next w s (fence_for o job) (rest u)
      → SettlesSomewhere next w s
          (fence_for o job)
          (acknowledged_or rest (acknowledge_cancellation now (fence_for o job) u))
  unfolding send written acknowledge_cancellation acknowledged SettlesSomewhere
  acknowledged_or-Settles now u rest v seen settled =
      go (send-Sends now (acknowledges (fence_for o job)) u v)
    where
      go :
          {q : Result (List Job × List Job)}
          → Sends now (acknowledges (fence_for o job)) u q
          → SettlesSomewhere next w s (fence_for o job) (acknowledged_or rest q)
      go (missed _) = settled
      go (hit j m h here) = (
        u,
        v,
        seen,
        wrote j _ m (takes-owned (acknowledges (fence_for o job)) j h) here refl refl refl refl,
      )

  report_failure-Settles :
      (e : Thrown) (flags : Flags) (t : List Job)
      → IsValid next t
      → Sees w s t
      → SettlesSomewhere next w s (fence_for o job) (report_failure o w job e flags t)
  unfolding report_failure SettlesSomewhere
  report_failure-Settles e flags t v seen = elim (Bool-cases (is_ownership_lost e.kind)) [
    | inl y ↦ rw y (t, v, seen, lost)
    | inr n ↦ elim (Bool-cases (flags.cancel_requested || is_job_cancelled e.kind)) [
      | inl c ↦
          rw (n, c)
            (acknowledged_or-Settles (w.clock 2) (w.between 2 t) (record_failure o w job e flags)
              (keeps 2 t v) (next_of 2 seen)
              (record_failure-Settles e flags (w.between 2 t) (keeps 2 t v) (next_of 2 seen)))
      | inr c ↦ rw (n, c) (record_failure-Settles e flags t v seen)
    ]
  ]

  report_completion-Settles :
      (flags : Flags) (t : List Job)
      → IsValid next t
      → Sees w s t
      → SettlesSomewhere next w s (fence_for o job) (report_completion o w job flags t)
  unfolding report_completion send written complete_job completed SettlesSomewhere
  report_completion-Settles flags t v seen =
      go (send-Sends (w.clock 1) (completes (fence_for o job)) (w.between 1 t) (keeps 1 t v))
    where
      go :
          {q : Result (List Job × List Job)}
          → Sends (w.clock 1) (completes (fence_for o job)) (w.between 1 t) q
          → SettlesSomewhere next w s
              (fence_for o job)
              (completion_reported (report_failure o w job database_error flags (w.between 1 t)) q)
      go (missed _) = (w.between 1 t, keeps 1 t v, next_of 1 seen, lost)
      go (hit j m h here) = (
        w.between 1 t,
        keeps 1 t v,
        next_of 1 seen,
        wrote j _ m (takes-owned (completes (fence_for o job)) j h) here refl refl refl refl,
      )

  report_success-Settles :
      (flags : Flags) (t : List Job)
      → IsValid next t
      → Sees w s t
      → SettlesSomewhere next w s (fence_for o job) (report_success o w job flags t)
  unfolding report_success send written acknowledge_cancellation acknowledged SettlesSomewhere
  report_success-Settles flags t v seen =
      if_both (SettlesSomewhere next w s (fence_for o job)) flags.cancel_requested
        (go (send-Sends (w.clock 0) (acknowledges (fence_for o job)) (w.between 0 t) (keeps 0 t v)))
        (report_completion-Settles flags t v seen)
    where
      go :
          {q : Result (List Job × List Job)}
          → Sends (w.clock 0) (acknowledges (fence_for o job)) (w.between 0 t) q
          → SettlesSomewhere next w s (fence_for o job) (elim q [
            | ok (t', []) ↦ report_completion o w job flags t'
            | ok (t', row ∷ rows) ↦ ok (t', cancelled)
            | err e ↦ report_failure o w job database_error flags (w.between 0 t)
          ])
      go (missed _) = report_completion-Settles flags (w.between 0 t) (keeps 0 t v) (next_of 0 seen)
      go (hit j m h here) = (
        w.between 0 t,
        keeps 0 t v,
        next_of 0 seen,
        wrote j _ m (takes-owned (acknowledges (fence_for o job)) j h) here refl refl refl refl,
      )

-- However the handler ended and whatever the others do to the table between the run's statements, as
-- long as they keep it valid: the run does not throw, and either its outcome is `ownership_lost` and
-- none of its statements changed anything (the table is t, after only what the others did to it), or one
-- statement, the first that wrote, took the row that the run still owned, the attempt unchanged, into the
-- state that the outcome names.
pub run_job-Settles :
    {next : ℕ} (o : RunnerOptions) (w : Elsewhere) (job : ClaimedJob) (thrown : Option Thrown)
    (flags : Flags) (t : List Job)
    → ((n : ℕ) (u : List Job) → IsValid next u → IsValid next (w.between n u))
    → IsValid next t
    → SettlesSomewhere next w t (fence_for o job) (run_job o w job thrown flags t)
unfolding run_job
run_job-Settles o w job none flags t keeps v =
    report_success-Settles o w job t keeps flags t v first
run_job-Settles o w job (some e) flags t keeps v =
    report_failure-Settles o w job t keeps e flags t v first
