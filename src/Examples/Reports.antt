-- ===== src/Examples/Reports.antt =====
-- Reports on a table of one running row.
use pgjobq.Base.{◌≡◌, refl, inl, none, List, [], ◌∷◌, In}
use pgjobq.Types.{Job}
use pgjobq.Table.{ok, check_row}
use pgjobq.Sql.Report.{owned, fail_job}
use pgjobq.Sql.Report.Outcome.{Records, Fails, fail_job_decides}
use pgjobq.Examples.{first_run, failure, one-IsValid}

fail_job_decides_example :
    (t' : List Job) × (k : Job) × (fail_job 9 failure (first_run ∷ []) ≡ ok (t', k ∷ []))
    × In k t'
    × Fails 9 failure first_run k
    × (k.attempt ≡ 1)
    × (k.worker_id ≡ none)
    × (k.lease_expires_at ≡ none)
    × Records failure first_run k
unfolding owned check_row
fail_job_decides_example =
    fail_job_decides 9 failure (first_run ∷ []) first_run (one-IsValid first_run refl refl)
      (inl refl) refl
