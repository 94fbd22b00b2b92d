-- ===== src/Examples/Operators.antt =====
-- Insertions, replays and transitions at concrete rows.
use pgjobq.Base.{◌≡◌, refl, inl, List, [], ◌∷◌, where_, any, all, order_by, insert_by}
use pgjobq.Types.{Job}
use pgjobq.Table.{ok, update, update_where, check_row, clash, unique_rows}
use pgjobq.Sql.Claim.{paused, eligible, claim_order, candidates, claimed, claim_by, claim_jobs}
use pgjobq.Sql.Query.{replayed, replay_dead_job}
use pgjobq.Sql.Report.{completed}
use pgjobq.Sql.Report.Fence.{send, completes}
use pgjobq.History.Reuse.{replay_reopens_fence}
use pgjobq.Examples.{finished, by, fence, nobody, one-IsValid}

-- The job is replayed at 20 and claimed at 30.
abbrev again : Job
unfolding replayed
again = replayed 20 finished

abbrev again_run : Job
unfolding replayed claimed
again_run = claimed 30 "a" again

replay_reopens_fence_example :
    (t3 : List Job) × (send 40 (completes (fence "a" 1)) (again_run ∷ [])
      ≡ ok (t3, completed 40 again_run ∷ []))
unfolding where_ any all order_by insert_by update update_where check_row clash unique_rows paused
    eligible claim_order candidates claimed claim_by claim_jobs replayed replay_dead_job
replay_reopens_fence_example =
    replay_reopens_fence 20 30 40 (fence "a" 1) nobody [] (by "a") (finished ∷ []) (again ∷ [])
      (again_run ∷ []) (again ∷ []) (again_run ∷ []) finished again_run
      (one-IsValid finished refl refl) (inl refl) refl refl refl refl refl refl (inl refl) refl
