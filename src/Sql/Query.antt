-- ===== src/Sql/Query.antt =====
-- packages/core/src/sql/query.sql.ts: reads by id and the operator's mutations.
pub mod Replay
use pgjobq.Base.{
  ℕ, ◌+◌, String, Bool, true, false, ◌&&◌, ◌||◌, not, Option, none, some, List, [], ◌∷◌, ltb, leb,
  ◌==◌, str_eq, if◌then◌else◌, where_, any, order_by, take, In,
}
use pgjobq.Types.{Job, JobState, QueueConfig, is_available, is_running, is_dead}
use pgjobq.StateMachine.{includes}
use pgjobq.Table.{among, Result, update}

unfoldable pub get_job : ℕ → List Job → Option Job
get_job id [] = none
get_job id (j ∷ t) = let rest = get_job id t in if j.id == id then some j else rest

unfoldable pub with_id : ℕ → Job → Bool
with_id id j = j.id == id

unfoldable pub cancelled_now : ℕ → Job → Job
cancelled_now now j = record j {
  state = JobState.cancelled;
  finished_at = some now;
  updated_at = now;
}

unfoldable pub cancel_available_job : ℕ → ℕ → List Job → Result (List Job × List Job)
cancel_available_job now id t =
    update (λ j. j.id == id && is_available j.state) (cancelled_now now) t

abbrev pub or_now : Option ℕ → ℕ → Option ℕ
or_now none now = some now
or_now (some a) now = some a

unfoldable pub cancel_requested : ℕ → Job → Job
cancel_requested now j = record j {
  cancel_requested_at = or_now j.cancel_requested_at now;
  updated_at = now;
}

unfoldable pub request_cancel_running_job : ℕ → ℕ → List Job → Result (List Job × List Job)
request_cancel_running_job now id t =
    update (λ j. j.id == id && is_running j.state) (cancel_requested now) t

unfoldable pub advanced : ℕ → Job → Job
advanced now j = record j { run_at = now; updated_at = now }

unfoldable pub retry_job_now : ℕ → ℕ → List Job → Result (List Job × List Job)
retry_job_now now id t = update (λ j. j.id == id && is_available j.state) (advanced now) t

unfoldable pub replayed : ℕ → Job → Job
replayed now j = record j {
  state = JobState.available;
  attempt = 0;
  dead_reason = none;
  run_at = now;
  finished_at = none;
  started_at = none;
  updated_at = now;
}

unfoldable pub replay_dead_job : ℕ → ℕ → List Job → Result (List Job × List Job)
replay_dead_job now id t = update (λ j. j.id == id && is_dead j.state) (replayed now) t

unfoldable pub replay_dead_jobs : ℕ → List ℕ → List Job → Result (List Job × List Job)
replay_dead_jobs now wanted t =
    update (λ j. any (λ i. i == j.id) wanted && is_dead j.state) (replayed now) t

-- The rows of a queue in the given states, the lowest ids first.
unfoldable pub purge_victims : (ℕ → Bool) → String → List JobState → ℕ → List Job → List Job
purge_victims locked queue states limit t = take limit (
    where_ (λ j. not (locked j.id))
      (order_by (λ j k. leb j.id k.id)
        (where_ (λ j. str_eq j.queue queue && includes j.state states) t)))

-- The table after the deletion, and the rows deleted.
unfoldable pub purge_queue :
    (ℕ → Bool) → String → List JobState → ℕ → List Job → List Job × List Job
unfolding purge_victims
purge_queue locked queue states limit t =
    let v = purge_victims locked queue states limit t in
    (where_ (λ j. not (among v j)) t, where_ (among v) t)
