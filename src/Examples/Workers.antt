-- ===== src/Examples/Workers.antt =====
-- Runs and pools at concrete jobs.
use pgjobq.Base.{
  All, In, order_by, insert_by, zero, suc, ℕ, ◌≤◌, ◌≡◌, refl, inl, true, false, none, some, List,
  [], ◌∷◌, arith, length, where_, any, all,
}
use pgjobq.Types.{Job, ClaimedJob}
use pgjobq.Table.{Elsewhere, ok, update, update_where, check_row, clash, unique_rows}
use pgjobq.Table.Valid.{IsValid}
use pgjobq.Errors.{Thrown, ThrownKind}
use pgjobq.Sql.Report.{owned, released, release_job}
use pgjobq.Worker.Runner.{
  RunnerOptions, Flags, RunOutcome, fence_for, run_job, release, dead, succeeded,
}
use pgjobq.Worker.Runner.Settling.{SettlesSomewhere, run_job-Settles}
use pgjobq.Worker.Registry.{Registration, unfit, get_entry, run_handler}
use pgjobq.Worker.Registry.Unfit.{unfit_job_dies}
use pgjobq.Worker.Pool.{Pool, PoolOptions, Event, asks, answers, settles, run_pool, release_active}
use pgjobq.Worker.Pool.Slots.{IsWithin, run_pool-IsWithin}
use pgjobq.Worker.Pool.Shutdown.{GivenBack, release_active_frees}
use pgjobq.Worker.Delivery.{inserted_job_succeeds}
use pgjobq.Sql.Enqueue.{Jobs, new_job, insert_job}
use pgjobq.Sql.Claim.{eligible, paused, claimed, claim_jobs, claim_by, candidates, to_claimed_job}
use pgjobq.Examples.{a_row, start, start-IsSound, nobody, by, first_run, one-IsValid}

abbrev options : RunnerOptions
options = record {
  worker_id = "a";
  next_delay_ms = λ n. 500;
  max_ms = 60000;
  max_error_history = 5;
  max_error_text_bytes = 4096;
  truncate = λ n s. s;
}

abbrev at_nine : Elsewhere
at_nine = record { clock = λ n. 9; between = λ n t. t }

abbrev job : ClaimedJob
job = record {
  id = 1;
  queue = "mail";
  type = "send";
  payload = "{}";
  metadata = none;
  attempt = 1;
  max_attempts = 2;
  lease_seconds = 30;
  lease_expires_at = some 30000;
  trace_context = none;
  enqueued_at = 0;
}

abbrev bad_payload : Thrown
bad_payload = record { kind = ThrownKind.zod_error; name = "ZodError"; message = ""; stack = "" }

abbrev calm : Flags
calm = record { timed_out = false; cancel_requested = false }

first_run-IsValid : IsValid 3 (first_run ∷ [])
unfolding check_row
first_run-IsValid = one-IsValid first_run refl refl

run_job-Settles_example :
    SettlesSomewhere 3 at_nine
      (first_run ∷ [])
      (fence_for options job)
      (run_job options at_nine job (some bad_payload) calm (first_run ∷ []))
run_job-Settles_example =
    run_job-Settles options at_nine job (some bad_payload) calm (first_run ∷ []) (λ n u v. v)
      first_run-IsValid

-- A pool of two slots, with nothing to do.
abbrev idle : Pool
idle = record {
  in_flight = [];
  active = [];
  live = [];
  asked = [];
  next_run = 0;
  running = true;
  draining = false;
  counters = record {
    claimed = 0;
    succeeded = 0;
    failed = 0;
    dead = 0;
    cancelled = 0;
    ownership_lost = 0;
  };
}

abbrev two_slots : PoolOptions
two_slots = record { concurrency = 2; claim_batch_max = 10; runner = options }

abbrev offers : ℕ → List ClaimedJob
offers zero = []
offers (suc n) = job ∷ []

offers_limited : (n : ℕ) → length (offers n) ≤ n
offers_limited zero = omega arith
offers_limited (suc n) = omega arith

abbrev day : List Event
day =
    asks 0
    ∷ answers 0 offers
    ∷ asks 0
    ∷ settles 0 1 (some RunOutcome.succeeded)
    ∷ answers 0 offers
    ∷ []

run_pool-IsWithin_example : IsWithin two_slots (run_pool two_slots day idle)
run_pool-IsWithin_example =
    run_pool-IsWithin two_slots day idle
      (refl, (refl, offers_limited, (refl, (refl, offers_limited, tt)))) (inl (refl, omega arith))

abbrev given_back : Job
unfolding released
given_back = released 9 first_run

release_active_frees_example :
    ((k : Job) × (m : ℕ) × In k (given_back ∷ []) × GivenBack 9 first_run k)
    × All (λ k. owned (fence_for options job) k ≡ false) (given_back ∷ [])
unfolding release_active release release_job owned fence_for update update_where check_row clash
    unique_rows all any where_ released
release_active_frees_example =
    release_active_frees options (λ n. 9) 0 ((1, job) ∷ []) (first_run ∷ []) 1 job first_run
      first_run-IsValid (inl refl) (inl refl) refl

-- A registry of the job's type, whose schema takes nothing.
abbrev strict : Registration
strict = record {
  type = "send";
  schema = λ payload. unfit "expected an address" "";
  handler = λ payload. none;
}

unfit_job_dies_example :
    (t' : List Job) × (run_job options at_nine job
        (run_handler "" "send" "{}" (strict ∷ []))
        calm
        (first_run ∷ [])
      ≡ ok (t', dead))
unfolding get_entry owned fence_for
unfit_job_dies_example =
    unfit_job_dies options at_nine job calm (first_run ∷ []) first_run "" "send" "{}" (strict ∷ [])
      ("expected an address", "", refl) first_run-IsValid (inl refl) refl refl refl

-- The job is inserted at 5 and claimed at 7.
abbrev one_job : Jobs
unfolding new_job
one_job = record { rows = new_job 5 1 a_row ∷ []; next_id = 2 }

abbrev delivered : Job
unfolding claimed new_job
delivered = claimed 7 "a" (new_job 5 1 a_row)

inserted_job_succeeds_example :
    In delivered (delivered ∷ [])
    × ((t' : List Job) × (run_job options at_nine
            (to_claimed_job delivered)
            none
            calm
            (delivered ∷ [])
          ≡ ok (t', succeeded)))
unfolding new_job insert_job check_row clash any all where_ eligible paused claimed claim_jobs
    claim_by candidates order_by insert_by update update_where unique_rows
inserted_job_succeeds_example =
    inserted_job_succeeds [] 5 7 1 a_row start.jobs one_job nobody options (by "a") (delivered ∷ [])
      (delivered ∷ []) at_nine calm start-IsSound.good refl (omega arith) refl refl refl refl
      (omega arith) refl refl refl
