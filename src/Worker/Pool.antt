-- ===== src/Worker/Pool.antt =====
-- packages/core/src/worker/pool.ts: the slots of a worker process, its claims and its shutdown.
pub mod Slots
pub mod Tracking
pub mod Shutdown
use pgjobq.Base.{
  ℕ, ◌+◌, ◌-◌, min, String, Bool, true, false, ◌&&◌, ◌||◌, not, Option, none, some, List, [], ◌∷◌,
  ◌++◌, map, ltb, ◌==◌, str_eq, if◌then◌else◌, length, where_,
}
use pgjobq.Base.Keyed.{set_key, delete_key}
use pgjobq.Types.{Job, ClaimedJob, QueueConfig}
use pgjobq.Table.{Result, ok, err, is_some}
use pgjobq.Sql.Claim.{ClaimParams, claim_jobs, claim_jobs_with_aging, to_claimed_job}
use pgjobq.Sql.Enqueue.{QueueDefaultsRow, resolve_queue_defaults}
use pgjobq.Worker.Runner.{
  RunnerOptions, RunOutcome, succeeded, retried, dead, cancelled, ownership_lost, release,
}

-- The limits of the options.
pub record PoolOptions : Type 0 where
  pub concurrency : ℕ
  pub claim_batch_max : ℕ
  pub runner : RunnerOptions

pub record Counters : Type 0 where
  pub claimed : ℕ
  pub succeeded : ℕ
  pub failed : ℕ
  pub dead : ℕ
  pub cancelled : ℕ
  pub ownership_lost : ℕ

-- `in_flight` maps a job's id to its promise, here the number of its run. `live` are the runs whose
-- handlers execute, with their jobs: the promises themselves, in a map or not. `asked` are the claims that
-- are sent and not answered, by the loop that waits for each, with their limits.
pub record Pool : Type 0 where
  pub in_flight : List (ℕ × ℕ)
  pub active : List (ℕ × ClaimedJob)
  pub live : List (ℕ × ℕ)
  pub asked : List (ℕ × ℕ)
  pub next_run : ℕ
  pub running : Bool
  pub draining : Bool
  pub counters : Counters

-- `start`; the listener is left out.
unfoldable pub start : Pool → Pool
start s = if s.running then s else record s { running = true; draining = false }

-- `spawn`, up to the first suspension of the run.
unfoldable pub spawn : Pool → ClaimedJob → Pool
spawn s job = record s {
  active = set_key job.id job s.active;
  in_flight = set_key job.id s.next_run s.in_flight;
  live = s.live ++ (s.next_run, job.id) ∷ [];
  next_run = s.next_run + 1;
}

unfoldable pub spawn_all : Pool → List ClaimedJob → Pool
unfolding spawn
spawn_all s [] = s
spawn_all s (job ∷ jobs) = spawn_all (spawn s job) jobs

unfoldable pub count : RunOutcome → Counters → Counters
count RunOutcome.succeeded c = record c { succeeded = c.succeeded + 1 }
count RunOutcome.retried c = record c { failed = c.failed + 1 }
count RunOutcome.dead c = record c { dead = c.dead + 1 }
count RunOutcome.cancelled c = record c { cancelled = c.cancelled + 1 }
count RunOutcome.ownership_lost c = record c { ownership_lost = c.ownership_lost + 1 }

abbrev pub counted : Option RunOutcome → Counters → Counters
unfolding count
counted none c = c
counted (some o) c = count o c

-- The end of run n, of the job with the given id: its outcome, unless the runner threw, and the
-- `finally` block.
unfoldable pub settle : ℕ → ℕ → Option RunOutcome → Pool → Pool
unfolding count
settle n id outcome s = record s {
  counters = counted outcome s.counters;
  active = delete_key id s.active;
  in_flight = delete_key id s.in_flight;
  live = delete_key n s.live;
}

abbrev pub claim_with :
    List QueueConfig
    → ℕ
    → (ℕ → Bool)
    → Bool
    → Option ℕ
    → ClaimParams
    → List Job
    → Result (List Job × List Job)
claim_with cs now locked aging none p t = claim_jobs cs now locked p t
claim_with cs now locked aging (some threshold) p t =
    if aging
    then claim_jobs_with_aging cs now locked p threshold t
    else claim_jobs cs now locked p t

-- `claim`: the statement that the queue's configuration asks for.
unfoldable pub claim_statement :
    List QueueConfig
    → ℕ
    → (ℕ → Bool)
    → QueueDefaultsRow
    → ClaimParams
    → List Job
    → Result (List Job × List Job)
claim_statement cs now locked config p t =
    claim_with cs now locked config.priority_aging config.aging_threshold_s p t

abbrev pub claimed_rows : Result (List Job × List Job) → List ClaimedJob
unfolding to_claimed_job
claimed_rows (ok (t, rows)) = map to_claimed_job rows
claimed_rows (err e) = []

unfoldable pub asked_by : ℕ → List (ℕ × ℕ) → Option ℕ
asked_by loop [] = none
asked_by loop ((l, n) ∷ asked) =
    let rest = asked_by loop asked in if l == loop then some n else rest

-- One turn of a loop over the queues, up to its `await`: it reads the capacity and sends a claim with that
-- limit. A loop that waits for an answer takes no turn. `start` during an unfinished `stop` makes a second
-- loop beside the first, which goes on.
unfoldable pub ask : PoolOptions → ℕ → Pool → Pool
unfolding asked_by
ask o loop s =
    let capacity = o.concurrency - length s.in_flight in
    if not (is_some (asked_by loop s.asked)) && s.running && ltb 0 capacity
    then record s { asked = (loop, min capacity o.claim_batch_max) ∷ s.asked }
    else s

abbrev pub take_jobs : Pool → List ClaimedJob → Pool
unfolding spawn_all
take_jobs s jobs =
    let s' = spawn_all s jobs in
    record s' { counters = record s'.counters { claimed = s'.counters.claimed + length jobs } }

abbrev pub answered : ℕ → (ℕ → List ClaimedJob) → Pool → Option ℕ → Pool
unfolding spawn_all delete_key
answered loop claim s none = s
answered loop claim s (some n) = take_jobs (record s { asked = delete_key loop s.asked }) (claim n)

-- The turn from the answer on: all of its jobs are spawned, whatever happened in between. `claim` is the
-- answer by the claim's limit; a claim that fails, which the loop catches, has no jobs.
unfoldable pub answer : ℕ → (ℕ → List ClaimedJob) → Pool → Pool
unfolding spawn_all asked_by delete_key
answer loop claim s = answered loop claim s (asked_by loop s.asked)

-- `stop`, as far as the wait for the loop.
unfoldable pub drain : Pool → Pool
drain s = if s.running then record s { running = false; draining = true } else s

-- A release that fails is caught, and has changed nothing.
abbrev pub after_release : List Job → Result (List Job × Bool) → List Job
after_release t (ok (t', released)) = t'
after_release t (err e) = t

-- The end of `stop`, after the grace period: the jobs that are still active are released, one
-- statement each, the n-th at time `clock n`.
unfoldable pub release_active :
    RunnerOptions → (ℕ → ℕ) → ℕ → List (ℕ × ClaimedJob) → List Job → List Job
release_active o clock n [] t = t
release_active o clock n ((id, job) ∷ jobs) t =
    release_active o clock (n + 1) jobs (after_release t (release o job (clock n) t))

-- What happens to a pool, in any order.
pub data Event : Type 0 where
  starts drains : Event
  asks : ℕ → Event
  answers : ℕ → (ℕ → List ClaimedJob) → Event
  settles : ℕ → ℕ → Option RunOutcome → Event

unfoldable pub on_event : PoolOptions → Event → Pool → Pool
unfolding start drain ask answer settle
on_event o starts s = start s
on_event o drains s = drain s
on_event o (asks loop) s = ask o loop s
on_event o (answers loop claim) s = answer loop claim s
on_event o (settles n id outcome) s = settle n id outcome s

unfoldable pub run_pool : PoolOptions → List Event → Pool → Pool
unfolding on_event
run_pool o [] s = s
run_pool o (e ∷ es) s = run_pool o es (on_event o e s)
