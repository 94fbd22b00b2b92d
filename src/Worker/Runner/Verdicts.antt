-- ===== src/Worker/Runner/Verdicts.antt =====
-- Worker.Runner: the outcome of a run that still owns its job.
use pgjobq.Base.{
  if_false, ℕ, ◌≡◌, refl, ◌∙◌, Bool, true, false, ◌||◌, not, leb, Option, none, some, List, [], ◌∷◌,
  In, arith, if◌then◌else◌,
}
use pgjobq.Types.{Job, ClaimedJob, is_dead}
use pgjobq.Table.{Elsewhere, ok, is_some}
use pgjobq.Table.Valid.{IsValid}
use pgjobq.Errors.{Thrown}
use pgjobq.Sql.Report.{FailParams, owned, failed}
use pgjobq.Sql.Report.Fence.{acknowledges, completes, fails, send, takes, written, send_owner}
use pgjobq.Worker.Runner.{
  RunnerOptions, Flags, fence_for, failure_of, record_failure, report_failure, report_completion,
  report_success, run_job, succeeded, retried, dead, cancelled, is_ownership_lost, is_job_cancelled,
}

-- What the handler threw is not the loss of its job.
abbrev pub keeps_job : Option Thrown → Bool
keeps_job none = true
keeps_job (some e) = not (is_ownership_lost e.kind)

-- An operator's wish wins: if a cancellation was requested, and the run still owns a row that says so
-- when it acknowledges, then the outcome is `cancelled`, whether the handler returned or threw.
pub run_job_cancels :
    {next : ℕ} (o : RunnerOptions) (w : Elsewhere) (job : ClaimedJob) (thrown : Option Thrown)
    (flags : Flags) (t : List Job) (j : Job)
    → ((n : ℕ) → IsValid next (w.between n t) × In j (w.between n t))
    → owned (fence_for o job) j ≡ true
    → is_some j.cancel_requested_at ≡ true
    → flags.cancel_requested ≡ true
    → keeps_job thrown ≡ true
    → (t' : List Job) × (run_job o w job thrown flags t ≡ ok (t', cancelled))
unfolding run_job report_success report_failure send takes
run_job_cancels o w job none flags t j here own asked flag kept =
    let (t', sent, _, _) =
      send_owner (w.clock 0) (acknowledges (fence_for o job)) (w.between 0 t) j (here 0).0
        (here 0).1 (ground arith) in
    (t', simp (flag, sent) refl)
run_job_cancels o w job (some e) flags t j here own asked flag kept =
    let (t', sent, _, _) =
      send_owner (w.clock 2) (acknowledges (fence_for o job)) (w.between 2 t) j (here 2).0
        (here 2).1 (ground arith) in
    let keep : is_ownership_lost e.kind ≡ false = ground arith in (t', simp (flag, sent, keep) refl)

report_completion_done :
    (o : RunnerOptions) (w : Elsewhere) (job : ClaimedJob) (flags : Flags) (t t' : List Job)
    (k : Job)
    → send (w.clock 1) (completes (fence_for o job)) (w.between 1 t) ≡ ok (t', k ∷ [])
    → report_completion o w job flags t ≡ ok (t', succeeded)
unfolding report_completion send
report_completion_done o w job flags t t' k h = simp h refl

-- A run whose handler returned, with no cancellation requested, and which still owns its row, succeeds.
pub run_job_succeeds :
    {next : ℕ} (o : RunnerOptions) (w : Elsewhere) (job : ClaimedJob) (flags : Flags) (t : List Job)
    (j : Job)
    → IsValid next (w.between 1 t)
    → In j (w.between 1 t)
    → owned (fence_for o job) j ≡ true
    → flags.cancel_requested ≡ false
    → (t' : List Job) × (run_job o w job none flags t ≡ ok (t', succeeded))
unfolding run_job report_success takes
run_job_succeeds o w job flags t j v m own flag =
    let (t', sent, _, _) =
      send_owner (w.clock 1) (completes (fence_for o job)) (w.between 1 t) j v m own in
    (
      t',
      if_false flags.cancel_requested _ _ flag ∙ report_completion_done o w job flags t t' _ sent,
    )

failed_dead :
    (now : ℕ) (p : FailParams) (j : Job)
    → is_dead (failed now p j).state ≡ (p.non_retryable || leb j.max_attempts j.attempt)
unfolding failed
failed_dead now p j = ground arith

-- A handler that threw anything but a cancellation or the loss of its job, in a run that still owns its
-- row, with no cancellation requested: the job is dead if the failure is not to be retried or this was
-- the last attempt that the row permits, and is retried otherwise.
pub run_job_fails :
    {next : ℕ} (o : RunnerOptions) (w : Elsewhere) (job : ClaimedJob) (e : Thrown) (flags : Flags)
    (t : List Job) (j : Job)
    → IsValid next (w.between 3 t)
    → In j (w.between 3 t)
    → owned (fence_for o job) j ≡ true
    → flags.cancel_requested ≡ false
    → is_ownership_lost e.kind ≡ false
    → is_job_cancelled e.kind ≡ false
    → (t' : List Job) × (run_job o w job (some e) flags t
        ≡ ok (
          t',
          if (failure_of o job e flags (w.clock 3)).non_retryable || leb j.max_attempts j.attempt
              then dead
              else retried,
        ))
unfolding run_job report_failure record_failure send takes written failure_of
run_job_fails o w job e flags t j v m own flag kept calm =
    let p = failure_of o job e flags (w.clock 3) in
    let (t', sent, _, _) = send_owner (w.clock 3) (fails p) (w.between 3 t) j v m own in
    (t', simp (flag, kept, calm, sent, failed_dead (w.clock 3) p j) refl)
