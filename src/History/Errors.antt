-- ===== src/History/Errors.antt =====
-- History: the error history, which the reports and the reaper trim.
use pgjobq.Base.{ℕ, ◌≤◌, ◌<◌, ◌≡◌, refl, List, [], ◌∷◌, In, arith, length}
use pgjobq.Types.{Job}
use pgjobq.Table.{Result, ok, err}
use pgjobq.Sql.Enqueue.{Jobs}
use pgjobq.Sql.Claim.{claimed}
use pgjobq.Sql.Report.{completed, failed, extended, acknowledged, released}
use pgjobq.Sql.Report.Fence.{completes, fails, beats, acknowledges, releases, written}
use pgjobq.Sql.Report.Outcome.{push_error_bounded}
use pgjobq.Sql.Reap.{reaped, reaped_history}
use pgjobq.Sql.Query.{cancelled_now, cancel_requested, advanced, replayed}
use pgjobq.History.{Op, reports, reaps, World, exec, step, run, after, worker_of}
use pgjobq.History.Effect.{image}
use pgjobq.History.Steps.{Origin, stayed, created, changed, exec-IsStep}
use pgjobq.History.Owners.{IsSound, step-IsSound}

-- The failure reports of a history keep between one entry and m.
abbrev pub KeepsWithin : ℕ → List (ℕ × Op) → Type 0
KeepsWithin m [] = Unit {0}
KeepsWithin m ((now, reports (fails p)) ∷ es) =
    ((0 < p.max_error_history) × (p.max_error_history ≤ m)) × KeepsWithin m es
KeepsWithin m ((now, op) ∷ es) = KeepsWithin m es

abbrev pub ErrorsWithin : ℕ → World → Type 0
ErrorsWithin m g = (j : Job) → In j g.jobs.rows → length j.errors ≤ m

abbrev OpWithin : ℕ → Op → Type 0
OpWithin m (reports (fails p)) = (0 < p.max_error_history) × (p.max_error_history ≤ m)
OpWithin m op = Unit {0}

image-errors :
    (m now : ℕ) (op : Op) (j : Job)
    → reaped_history ≤ m
    → OpWithin m op
    → length j.errors ≤ m
    → length (image now op j).errors ≤ m
unfolding image claimed written completed failed extended acknowledged released reaped cancelled_now
    cancel_requested advanced replayed
image-errors m now (reports (fails p)) j five h le =
    push_error_bounded p.max_error_history m p.error j.errors h.0 h.1 le
image-errors m now (reports (completes p)) j five h le = le
image-errors m now (reports (beats p s)) j five h le = le
image-errors m now (reports (acknowledges p)) j five h le = le
image-errors m now (reports (releases p)) j five h le = le
image-errors m now (reaps locked limit delay) j five h le =
    push_error_bounded reaped_history m _ j.errors (omega arith) five le
image-errors m now _ j five h le = le

step_errors :
    (m now : ℕ) (op : Op) (g : World)
    → reaped_history ≤ m
    → OpWithin m op
    → IsSound g
    → ErrorsWithin m g
    → ErrorsWithin m (step (now, op) g)
unfolding step
step_errors m now op g five h v all = go (exec now op g.jobs) refl
  where
    go :
        (r : Result (Jobs × List Job))
        → exec now op g.jobs ≡ r
        → ErrorsWithin m (after g (worker_of op) r)
    go (err _) e = all
    go (ok (s, w)) e = λ k n. row k ((exec-IsStep now op g.jobs s w v.good e).rows k n)
      where
        row : (k : Job) → Origin now op g.jobs w k → length k.errors ≤ m
        row k (stayed n) = all k n
        row k (created _ _ _ _ q) = rw q (omega arith)
        row k (changed j n _ _ _ q) = rw q (image-errors m now op j five h (all j n))

head_within :
    (m now : ℕ) (op : Op) (es : List (ℕ × Op))
    → KeepsWithin m ((now, op) ∷ es)
    → OpWithin m op × KeepsWithin m es
head_within m now (reports (fails p)) es h = h
head_within m now (reports (completes p)) es h = (tt, h)
head_within m now (reports (beats p s)) es h = (tt, h)
head_within m now (reports (acknowledges p)) es h = (tt, h)
head_within m now (reports (releases p)) es h = (tt, h)
head_within m now _ es h = (tt, h)

-- If every failure report of a history keeps between one entry and m, and m is at least the
-- reaper's 5, then, from a sound start whose rows hold no more than m errors, no row ends with
-- more than m errors.
pub run-ErrorsWithin :
    (m : ℕ) (es : List (ℕ × Op)) (g : World)
    → reaped_history ≤ m
    → KeepsWithin m es
    → IsSound g
    → ErrorsWithin m g
    → ErrorsWithin m (run es g)
unfolding run
run-ErrorsWithin m [] g five h v all = all
run-ErrorsWithin m ((now, op) ∷ es) g five h v all =
    let (this, rest) = head_within m now op es h in
    run-ErrorsWithin m es (step (now, op) g) five rest (step-IsSound (now, op) g v)
      (step_errors m now op g five this v all)
