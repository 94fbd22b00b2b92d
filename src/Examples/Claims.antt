-- ===== src/Examples/Claims.antt =====
-- Claims on tables of one or two rows.
use pgjobq.Base.{
  All, none, ◌≤◌, ◌≡◌, ◌≢◌, refl, ◌⊎◌, inl, true, false, List, [], ◌∷◌, arith, In, length, where_,
  any, all, order_by, insert_by,
}
use pgjobq.Types.{Job}
use pgjobq.Table.{err, ok, PgError, update, update_where, check_row, clash, unique_rows}
use pgjobq.Table.Valid.{IsValid}
use pgjobq.Sql.Claim.{paused, eligible, claim_order, candidates, claimed, claim_by, claim_jobs}
use pgjobq.Sql.Claim.Candidates.{IsEligible}
use pgjobq.Sql.Claim.Best.{
  Delivered, Before, claim_jobs_sound, claim_jobs_best, claim_jobs_disjoint,
}
use pgjobq.Sql.Claim.Spent.{release_wedges}
use pgjobq.Sql.Listing.{set_queue_paused}
use pgjobq.Sql.Listing.Pause.{pause_stops_claims}
use pgjobq.Sql.Report.{owned, released, release_job}
use pgjobq.Sql.Report.Fence.{send}
use pgjobq.Examples.{waiting, last_run, by, fence, nobody, one-IsValid}

abbrev claimed_row : Job
unfolding claimed
claimed_row = claimed 7 "a" waiting

waiting-IsEligible : IsEligible [] 7 "mail" waiting
unfolding paused
waiting-IsEligible = record { queue = refl; state = refl; due = omega arith; resumed = refl }

claim_jobs_sound_example :
    (length (claimed_row ∷ []) ≤ 5)
    × All
        (λ k.
          (j : Job) × In j (waiting ∷ [])
          × IsEligible [] 7 "mail" j
          × (nobody j.id ≡ false)
          × Delivered 7 "a" j k
          × In k (claimed_row ∷ []))
        (claimed_row ∷ [])
unfolding where_ any all order_by insert_by update update_where check_row clash unique_rows paused
    eligible claim_order candidates claimed claim_by claim_jobs
claim_jobs_sound_example =
    claim_jobs_sound [] 7 nobody (by "a") (waiting ∷ []) (claimed_row ∷ []) (claimed_row ∷ [])
      (one-IsValid waiting refl refl) refl

claim_jobs_best_example :
    ((k : Job) × In k (claimed_row ∷ []) × Delivered 7 "a" waiting k)
    ⊎ ((length (claimed_row ∷ []) ≡ 5)
        × All
            (λ k. (i : Job) × In i (waiting ∷ []) × Delivered 7 "a" i k × Before i waiting)
            (claimed_row ∷ []))
unfolding where_ any all order_by insert_by update update_where check_row clash unique_rows paused
    eligible claim_order candidates claimed claim_by claim_jobs
claim_jobs_best_example =
    claim_jobs_best [] 7 nobody (by "a") (waiting ∷ []) (claimed_row ∷ []) (claimed_row ∷ [])
      waiting (one-IsValid waiting refl refl) refl (inl refl) waiting-IsEligible refl

-- Another job, of another key.
abbrev second_row : Job
second_row = record waiting { id = 2; unique_key = none; run_at = 8 }

abbrev two_rows : List Job
two_rows = waiting ∷ second_row ∷ []

two_rows-IsValid : IsValid 3 two_rows
unfolding all any unique_rows check_row clash
two_rows-IsValid = record {
  checks = refl;
  keys = refl;
  ids = (λ k m e. ground (arith, m), (λ k m. absurd m, tt));
  below = λ k m. ground (arith, m);
}

abbrev second_claimed : Job
unfolding claimed
second_claimed = claimed 9 "b" second_row

claim_jobs_disjoint_example : claimed_row.id ≢ second_claimed.id
unfolding where_ any all order_by insert_by update update_where check_row clash unique_rows paused
    eligible claim_order candidates claimed claim_by claim_jobs
claim_jobs_disjoint_example =
    claim_jobs_disjoint [] [] 7 9 nobody nobody (by "a") (by "b") two_rows
      (claimed_row ∷ second_row ∷ []) (claimed_row ∷ second_claimed ∷ []) (claimed_row ∷ [])
      (second_claimed ∷ []) claimed_row second_claimed two_rows-IsValid refl refl (inl refl)
      (inl refl)

-- The last attempt, released at 50, and claimed by another worker.
abbrev given_back : Job
unfolding released
given_back = released 50 last_run

release_wedges_example :
    claim_jobs [] 60 nobody (by "b") (given_back ∷ []) ≡ err PgError.check_violation
unfolding where_ any all update update_where check_row clash unique_rows paused eligible owned
    released release_job send
release_wedges_example =
    release_wedges 50 60 (fence "a" 2) (last_run ∷ []) (given_back ∷ []) (given_back ∷ []) last_run
      [] nobody (by "b") (one-IsValid last_run refl refl) (inl refl) refl refl (omega arith) refl
      refl refl refl (omega arith)

pause_stops_claims_example :
    claim_jobs (set_queue_paused "mail" true []) 7 nobody (by "a") (waiting ∷ [])
    ≡ ok (waiting ∷ [], [])
unfolding check_row
pause_stops_claims_example =
    pause_stops_claims [] 7 nobody (by "a") (waiting ∷ []) (one-IsValid waiting refl refl)
