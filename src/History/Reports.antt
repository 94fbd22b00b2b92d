-- ===== src/History/Reports.antt =====
-- History: the reports and the deliveries they stand on.
use text.Mathlib.TextEquality.{eq_iff}
use pgjobq.Base.{ℕ, ◌≡◌, subst, String, true, Option, some, List, In, arith}
use pgjobq.Types.{Job, JobState, running, is_running}
use pgjobq.Table.{key_eq}
use pgjobq.Sql.Report.{FenceParams}
use pgjobq.Sql.Report.Fence.{Report, takes, fence_of, takes-owned, owned-eq}
use pgjobq.History.{Op, Grant, World, run, grant}
use pgjobq.History.Owners.{IsSound, run-IsSound}

abbrev pub grant_of : FenceParams → Grant
grant_of p = record { id = p.id; attempt = p.attempt; worker = p.worker_id }

running_eq : (s : JobState) → is_running s ≡ true → s ≡ running
running_eq s h = ground arith

worker_eq : (o : Option String) (w x : String) → o ≡ some w → key_eq o (some x) ≡ true → w ≡ x
worker_eq o w x e h = ground (arith, eq_iff w x)

-- In every history from a sound start, a report that takes a row is under a fence that a claim
-- handed out: the same job, attempt and worker.
pub report_was_granted :
    (es : List (ℕ × Op)) (g : World) (r : Report) (j : Job)
    → IsSound g
    → In j (run es g).jobs.rows
    → takes r j ≡ true
    → In (grant_of (fence_of r)) (run es g).grants
report_was_granted es g r j v m h =
    let (i, live, key, a) = owned-eq (fence_of r) j (takes-owned r j h) in
    let (w, e, n) = (run-IsSound es g v).held j m (running_eq j.state live) in
    let same = worker_eq j.worker_id w (fence_of r).worker_id e key in
    subst (λ b. In b (run es g).grants) (fields i a same) n
  where
    fields :
        {w : String}
        → j.id ≡ (fence_of r).id
        → j.attempt ≡ (fence_of r).attempt
        → w ≡ (fence_of r).worker_id
        → grant w j ≡ grant_of (fence_of r)
    fields i a e = cc
