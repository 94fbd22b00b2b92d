-- ===== src/Client/Admin/Audited.antt =====
-- Client.Admin: the entries that a call adds to the audit log.
use pgjobq.Base.{
  ℕ, ◌≡◌, ap, ◌⊎◌, inl, inr, String, Bool, true, false, List, [], ◌∷◌, In, In-append, not,
  if◌then◌else◌, leb, length, str_eq,
}
use pgjobq.Types.{Job, JobState, QueueConfig}
use pgjobq.Table.{Elsewhere, Result, ok, err}
use pgjobq.StateMachine.{permitted_targets}
use pgjobq.Sql.Query.{
  get_job, cancel_available_job, request_cancel_running_job, retry_job_now, replay_dead_job,
  replay_dead_jobs,
}
use pgjobq.Client.Names.{valid_name}
use pgjobq.Client.Build.{Cached}
use pgjobq.Client.Admin.{
  Audit, Store, Target, cancel, cancelled_or, requested_or, then_read, retry_now, replay,
  replay_many, bulk_replayed, purge, purge_batches, set_paused, audit,
}

-- What is in the second log and not in the first is of that actor.
abbrev pub AuditsBy : String → Store → Store → Type 0
AuditsBy actor s s' = (a : Audit) → In a s'.audits → In a s.audits ⊎ (a.actor ≡ actor)

pub audit-AuditsBy :
    (actor action : String) (target : Target) (t : List Job) (s : Store)
    → AuditsBy actor s (audit actor action target (record s { rows = t }))
audit-AuditsBy actor action target t s a m = elim (In-append s.audits _ a m) [
  | inl r ↦ inl r
  | inr (inl e) ↦ inr (ap (λ (x : Audit). x.actor) e)
  | inr (inr x) ↦ absurd x
]

requested_or-AuditsBy :
    (w : Elsewhere) (id : ℕ) (actor : String) (s : Store) (r : Result (List Job × List Job))
    → AuditsBy actor s (requested_or w id actor s r).1
unfolding requested_or get_job permitted_targets
requested_or-AuditsBy w id actor s (ok (t, [])) = λ a m. inl m
requested_or-AuditsBy w id actor s (ok (t, row ∷ rows)) =
    audit-AuditsBy actor "job.cancel_requested" (Target.of_job id) t s
requested_or-AuditsBy w id actor s (err e) = λ a m. inl m

cancelled_or-AuditsBy :
    (w : Elsewhere) (id : ℕ) (actor : String) (s : Store) (r : Result (List Job × List Job))
    → AuditsBy actor s (cancelled_or w id actor s r).1
unfolding cancelled_or request_cancel_running_job get_job permitted_targets
cancelled_or-AuditsBy w id actor s (ok (t, [])) =
    requested_or-AuditsBy w id actor (record s { rows = w.between 1 t })
      (request_cancel_running_job (w.clock 1) id (w.between 1 t))
cancelled_or-AuditsBy w id actor s (ok (t, row ∷ rows)) =
    audit-AuditsBy actor "job.cancel" (Target.of_job id) t s
cancelled_or-AuditsBy w id actor s (err e) = λ a m. inl m

pub cancel-AuditsBy :
    (w : Elsewhere) (id : ℕ) (actor : String) (s : Store) → AuditsBy actor s (cancel w id actor s).1
unfolding cancel
cancel-AuditsBy w id actor s =
    cancelled_or-AuditsBy w id actor (record s { rows = w.between 0 s.rows })
      (cancel_available_job (w.clock 0) id (w.between 0 s.rows))

then_read-AuditsBy :
    (w : Elsewhere) (id : ℕ) (actor action : String) (s : Store) (r : Result (List Job × List Job))
    → AuditsBy actor s (then_read w id actor action s r).1
unfolding then_read get_job
then_read-AuditsBy w id actor action s (ok (t, [])) = λ a m. inl m
then_read-AuditsBy w id actor action s (ok (t, row ∷ rows)) =
    audit-AuditsBy actor action (Target.of_job id) (w.between 1 t) s
then_read-AuditsBy w id actor action s (err e) = λ a m. inl m

pub retry_now-AuditsBy :
    (w : Elsewhere) (id : ℕ) (actor : String) (s : Store)
    → AuditsBy actor s (retry_now w id actor s).1
unfolding retry_now
retry_now-AuditsBy w id actor s =
    then_read-AuditsBy w id actor "job.retry_now" (record s { rows = w.between 0 s.rows })
      (retry_job_now (w.clock 0) id (w.between 0 s.rows))

pub replay-AuditsBy :
    (w : Elsewhere) (id : ℕ) (actor : String) (s : Store) → AuditsBy actor s (replay w id actor s).1
unfolding replay
replay-AuditsBy w id actor s =
    then_read-AuditsBy w id actor "job.replay" (record s { rows = w.between 0 s.rows })
      (replay_dead_job (w.clock 0) id (w.between 0 s.rows))

bulk_replayed-AuditsBy :
    (ids : List ℕ) (actor : String) (s : Store) (r : Result (List Job × List Job))
    → AuditsBy actor s (bulk_replayed ids actor s r).1
bulk_replayed-AuditsBy ids actor s (ok (t, rows)) =
    audit-AuditsBy actor "job.replay_bulk" Target.of_none t s
bulk_replayed-AuditsBy ids actor s (err e) = λ a m. inl m

pub replay_many-AuditsBy :
    (now : ℕ) (ids : List ℕ) (actor : String) (s : Store)
    → AuditsBy actor s (replay_many now ids actor s).1
unfolding replay_many
replay_many-AuditsBy now [] actor s = λ a m. inl m
replay_many-AuditsBy now (i ∷ ids) actor s =
    bulk_replayed-AuditsBy (i ∷ ids) actor s (replay_dead_jobs now (i ∷ ids) s.rows)

-- A store that an if chooses.
either :
    {A : Type 0} (b : Bool) (actor : String) (s : Store) (x y : A × Store)
    → AuditsBy actor s x.1
    → AuditsBy actor s y.1
    → AuditsBy actor s (if b then x else y).1
either true actor s x y p q = p
either false actor s x y p q = q

pub purge-AuditsBy :
    (locked : ℕ → ℕ → Bool) (queue : String) (states : List JobState) (confirm : String)
    (size batches : ℕ) (actor : String) (s : Store)
    → AuditsBy actor s (purge locked queue states confirm size batches actor s).1
unfolding purge
purge-AuditsBy locked queue states confirm size batches actor s =
    either (not (valid_name queue)) actor s _ _ (λ a m. inl m)
      (either (not (str_eq confirm queue)) actor s _ _ (λ a m. inl m)
        (either (leb (length states) 0) actor s _ _ (λ a m. inl m)
          (audit-AuditsBy actor "queue.purge" (Target.of_queue queue)
            (purge_batches locked queue states size batches s.rows).1 s)))

pub set_paused-AuditsBy :
    (queue : String) (paused : Bool) (actor : String) (c : List QueueConfig × List Cached)
    (s : Store)
    → AuditsBy actor s (set_paused queue paused actor c s).1
unfolding set_paused
set_paused-AuditsBy queue paused actor c s =
    either (not (valid_name queue)) actor s _ _ (λ a m. inl m)
      (audit-AuditsBy actor (if paused then "queue.pause" else "queue.resume")
        (Target.of_queue queue) s.rows s)
