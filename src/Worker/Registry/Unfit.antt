-- ===== src/Worker/Registry/Unfit.antt =====
-- Worker.Registry with the runner: jobs that no handler can take.
use pgjobq.Base.{
  ◌≡◌, refl, ◌⊎◌, inl, inr, ℕ, String, true, false, Option, none, some, List, In, Option-cases,
}
use pgjobq.Types.{Job, ClaimedJob}
use pgjobq.Table.{Elsewhere, ok}
use pgjobq.Table.Valid.{IsValid}
use pgjobq.Errors.{ThrownKind, Thrown, is_non_retryable}
use pgjobq.Sql.Report.{owned}
use pgjobq.Worker.Runner.{
  RunnerOptions, Flags, fence_for, failure_of, run_job, dead, is_ownership_lost, is_job_cancelled,
}
use pgjobq.Worker.Runner.Verdicts.{run_job_fails}
use pgjobq.Worker.Registry.{
  unfit, Registration, get_entry, run_handler, zod_error, no_handler_error,
}

-- No handler takes the payload: the type is not registered, or its schema refuses the payload.
abbrev pub Unfits : String → Option Registration → Type 0
Unfits payload none = Unit {0}
Unfits payload (some r) =
    (message : String) × (stack : String) × (r.schema payload ≡ unfit message stack)

-- The two errors that the registry throws.
abbrev Unfit : Thrown → Type 0
Unfit e = (e.kind ≡ ThrownKind.no_handler) ⊎ (e.kind ≡ ThrownKind.zod_error)

run_handler-Unfit :
    (stack type payload : String) (rs : List Registration)
    → Unfits payload (get_entry type rs)
    → (e : Thrown) × (run_handler stack type payload rs ≡ some e) × Unfit e
unfolding run_handler
run_handler-Unfit stack type payload rs u = elim (Option-cases (get_entry type rs)) [
  | inl n ↦ (no_handler_error stack type, rw n refl, inl refl)
  | inr (r, e) ↦
      let (message, text, h) = rw e at u in (zod_error message text, rw (e, h) refl, inr refl)
]

not_lost : (e : Thrown) → Unfit e → is_ownership_lost e.kind ≡ false
not_lost e (inl k) = rw k refl
not_lost e (inr k) = rw k refl

not_cancelled : (e : Thrown) → Unfit e → is_job_cancelled e.kind ≡ false
not_cancelled e (inl k) = rw k refl
not_cancelled e (inr k) = rw k refl

never_retried_failure :
    (o : RunnerOptions) (job : ClaimedJob) (e : Thrown) (flags : Flags) (now : ℕ)
    → flags.timed_out ≡ false
    → Unfit e
    → (failure_of o job e flags now).non_retryable ≡ true
unfolding failure_of is_non_retryable pgjobq.Worker.Runner.classify
never_retried_failure o job e flags now h (inl k) = rw (h, k) refl
never_retried_failure o job e flags now h (inr k) = rw (h, k) refl

-- A job whose type has no handler, or whose payload its schema refuses, is dead after the first run that
-- still owns it at the report and that neither timed out nor was asked to cancel, however many attempts
-- it has left.
pub unfit_job_dies :
    {next : ℕ} (o : RunnerOptions) (w : Elsewhere) (job : ClaimedJob) (flags : Flags) (t : List Job)
    (j : Job) (stack type payload : String) (rs : List Registration)
    → Unfits payload (get_entry type rs)
    → IsValid next (w.between 3 t)
    → In j (w.between 3 t)
    → owned (fence_for o job) j ≡ true
    → flags.timed_out ≡ false
    → flags.cancel_requested ≡ false
    → (t' : List Job) × (run_job o w job (run_handler stack type payload rs) flags t
        ≡ ok (t', dead))
unfit_job_dies o w job flags t j stack type payload rs u v m own late asked =
    let (e, thrown, kind) = run_handler-Unfit stack type payload rs u in
    let (t', same) =
      run_job_fails o w job e flags t j v m own asked (not_lost e kind) (not_cancelled e kind) in
    (t', rw (thrown, same, never_retried_failure o job e flags (w.clock 3) late kind) refl)
