-- ===== src/Examples/Histories.antt =====
-- Histories of one job: a delivery that is lost, and a second one to another worker.
use pgjobq.Base.{
  false, ◌≤◌, ◌≡◌, refl, ◌⊎◌, inl, true, [], ◌∷◌, arith, In, length, where_, any, all, order_by,
  insert_by, ◌==◌,
}
use pgjobq.Types.{Job, available}
use pgjobq.Table.{ok, update, update_where, check_row, clash, unique_rows}
use pgjobq.StateMachine.{can_transition}
use pgjobq.Sql.Claim.{paused, eligible, claim_order, candidates, claimed, claim_by, claim_jobs}
use pgjobq.Sql.Enqueue.{new_job, insert_job}
use pgjobq.Sql.Reap.{expired, expired_rows, lease_error, reaped, reap_expired_leases}
use pgjobq.Sql.Report.{owned, push_error}
use pgjobq.Sql.Report.Fence.{send, takes, completes}
use pgjobq.History.{enqueues, claims, exec, step, run, grant}
use pgjobq.History.Owners.{IsSound, run-IsSound}
use pgjobq.History.Deliveries.{IsFenced, HasNoReplay, run-IsFenced, stale_report_fenced}
use pgjobq.History.Reports.{grant_of, report_was_granted}
use pgjobq.History.Budget.{deliveries_bounded}
use pgjobq.History.Final.{exec_permitted}
use pgjobq.Examples.{
  a_row, by, fence, nobody, start, start-IsSound, start-IsFenced, silent, retaken,
}

-- The job, and what the first and the second claim make of it.
abbrev fresh : Job
unfolding new_job
fresh = new_job 0 1 a_row

abbrev held_by_a : Job
unfolding new_job claimed
held_by_a = claimed 10 "a" fresh

abbrev held_by_b : Job
unfolding new_job claimed reaped lease_error push_error
held_by_b = claimed 50000 "b" (reaped 40000 500 held_by_a)

report_was_granted_example : In (grant_of (fence "a" 1)) (run silent start).grants
unfolding where_ any all order_by insert_by update update_where check_row clash unique_rows paused
    eligible claim_order candidates claimed claim_by claim_jobs new_job insert_job owned takes exec
    step run
report_was_granted_example =
    report_was_granted silent start (completes (fence "a" 1)) held_by_a start-IsSound (inl refl)
      refl

no_replay : HasNoReplay retaken
no_replay = (refl, (refl, (refl, (refl, tt))))

run-IsFenced_example : IsFenced (run retaken start)
run-IsFenced_example = run-IsFenced retaken start no_replay start-IsSound start-IsFenced

-- The first worker's completion, after the second claim.
stale_report_fenced_example :
    send 60000 (completes (fence "a" 1)) (run retaken start).jobs.rows
    ≡ ok ((run retaken start).jobs.rows, [])
unfolding where_ any all order_by insert_by update update_where check_row clash unique_rows paused
    eligible claim_order candidates claimed claim_by claim_jobs new_job insert_job owned takes exec
    step run expired expired_rows lease_error push_error reaped reap_expired_leases
stale_report_fenced_example =
    stale_report_fenced retaken start 60000 (completes (fence "a" 1)) (grant "b" held_by_b)
      no_replay start-IsSound start-IsFenced (inl refl) refl (omega arith)

deliveries_bounded_example :
    (length (where_ (λ a. a.id == 1) (run retaken start).grants) ≤ 2) × (2 ≤ 2)
unfolding where_ any all order_by insert_by update update_where check_row clash unique_rows paused
    eligible claim_order candidates claimed claim_by claim_jobs new_job insert_job owned takes exec
    step run expired expired_rows lease_error push_error reaped reap_expired_leases
deliveries_bounded_example =
    deliveries_bounded retaken start held_by_b no_replay start-IsSound start-IsFenced (inl refl)

run-IsSound_example : IsSound (run retaken start)
run-IsSound_example = run-IsSound retaken start start-IsSound

exec_permitted_example :
    ((false ≡ true) × (held_by_a.id ≡ 2) × (held_by_a.state ≡ available))
    ⊎ ((j : Job) × In j (fresh ∷ [])
        × (held_by_a.id ≡ j.id)
        × ((held_by_a.state ≡ j.state) ⊎ (can_transition j.state held_by_a.state ≡ true)))
unfolding where_ any all order_by insert_by update update_where check_row clash unique_rows paused
    eligible claim_order candidates claimed claim_by claim_jobs new_job insert_job owned takes exec
    step run
exec_permitted_example =
    exec_permitted 10 (claims [] nobody (by "a")) (run ((0, enqueues a_row) ∷ []) start).jobs
      (run silent start).jobs (held_by_a ∷ []) held_by_a
      (run-IsSound ((0, enqueues a_row) ∷ []) start start-IsSound).good refl (inl refl)
