-- ===== src/History/Deliveries.antt =====
-- History: the deliveries of a job, where no replay stands between.
use pgjobq.Base.{
  ℕ, ◌≤◌, ◌<◌, ◌≡◌, refl, sym, ◌∙◌, ap, inl, inr, String, false, Option, none, some, List, [], ◌∷◌,
  ◌++◌, map, arith, In, In-map, In-append, Bool-cases,
}
use pgjobq.Types.{Job}
use pgjobq.Table.{Result, ok, err}
use pgjobq.Table.Ids.{Distinct, In-id_eq}
use pgjobq.Sql.Enqueue.{Jobs}
use pgjobq.Sql.Report.{owned}
use pgjobq.Sql.Report.Fence.{Report, send, fence_of, send_fenced, owned-eq}
use pgjobq.History.{Op, Grant, World, exec, step, run, after, grant, granted, worker_of, is_replay}
use pgjobq.History.Effect.{hold, start, leave, restart}
use pgjobq.History.Steps.{Origin, stayed, created, changed, IsStep, exec-IsStep}
use pgjobq.History.Owners.{IsSound, new_grant, step-IsSound, run-IsSound}

-- No two entries are of one attempt of one job.
abbrev pub AreApart : List Grant → Type 0
AreApart [] = Unit {0}
AreApart (a ∷ l) = ((b : Grant) → In b l → a.id ≡ b.id → a.attempt ≡ b.attempt → ⊥) × AreApart l

append-AreApart :
    (l m : List Grant)
    → AreApart l
    → AreApart m
    → ((a b : Grant) → In a l → In b m → a.id ≡ b.id → a.attempt ≡ b.attempt → ⊥)
    → AreApart (l ++ m)
append-AreApart [] m d e cross = e
append-AreApart (a ∷ l) m d e cross = (
  λ b n. elim (In-append l m b n) [ inl r ↦ d.0 b r | inr r ↦ cross a b (inl refl) r ],
  append-AreApart l m d.1 e (λ x y r. cross x y (inr r)),
)

rows-AreApart : (x : String) (w : List Job) → Distinct w → AreApart (map (grant x) w)
rows-AreApart x [] d = tt
rows-AreApart x (j ∷ w) d = (
  λ b m e f. let (k, n, q) = In-map (grant x) w b m in d.0 k n (e ∙ ap (λ (a : Grant). a.id) q),
  rows-AreApart x w d.1,
)

pub record IsFenced (g : World) : Type 0 where
  -- No row is behind a delivery that was handed out.
  pub spent :
      (a : Grant) (j : Job) → In a g.grants → In j g.jobs.rows → a.id ≡ j.id → a.attempt ≤ j.attempt
  pub once : AreApart g.grants

module _ (now : ℕ) (op : Op) (g : World) (s : Jobs) (w : List Job) (v : IsSound g) (f : IsFenced g)
    (fresh : is_replay op ≡ false) (st : IsStep now op g.jobs s w) where
  old_spent :
      (a : Grant) (k : Job)
      → In a g.grants
      → Origin now op g.jobs w k
      → a.id ≡ k.id
      → a.attempt ≤ k.attempt
  old_spent a k m (stayed n) e = f.spent a k m n e
  old_spent a k m (created _ i _ _ _) e = absurd (omega (arith, v.known a m, e, i))
  old_spent a k m (changed j n i (hold _ h _) _ _) e = rw h (f.spent a j m n (e ∙ i))
  old_spent a k m (changed j n i (start x _ _ _ h _) _ _) e =
      rw h (omega (arith, f.spent a j m n (e ∙ i)))
  old_spent a k m (changed j n i (leave _ _ h) _ _) e = rw h (f.spent a j m n (e ∙ i))
  old_spent a k m (changed j n i (restart r _ _ _) _ _) e = cc

  spent_step :
      (a : Grant) (k : Job)
      → In a (granted (worker_of op) w ++ g.grants)
      → In k s.rows
      → a.id ≡ k.id
      → a.attempt ≤ k.attempt
  spent_step a k m n e = elim (In-append (granted (worker_of op) w) g.grants a m) [
    | inl r ↦
        let (x, o, (k0, i, q)) = new_grant now op g s w v st a r in
        let c = st.claimed x o k0 i in
        let same =
          In-id_eq s.rows k0 k st.good.ids c.here n (ap (λ (b : Grant). b.id) (sym q) ∙ e) in
        rw (q, same) (omega arith)
    | inr r ↦ old_spent a k r (st.rows k n) e
  ]

  new_apart : AreApart (granted (worker_of op) w)
  new_apart = go (worker_of op) refl
    where
      go : (o : Option String) → worker_of op ≡ o → AreApart (granted o w)
      go none e = tt
      go (some x) e = rows-AreApart x w (st.apart x e)

  cross :
      (a b : Grant)
      → In a (granted (worker_of op) w)
      → In b g.grants
      → a.id ≡ b.id
      → a.attempt ≡ b.attempt
      → ⊥
  cross a b m n e h =
      let (x, o, (k, i, q)) = new_grant now op g s w v st a m in
      let c = st.claimed x o k i in
      let behind = f.spent b c.row n c.old (sym e ∙ ap (λ (y : Grant). y.id) q ∙ c.id) in
      omega (arith, behind, c.attempt, ap (λ (y : Grant). y.attempt) q, h)

  IsFenced-step : IsFenced (record { jobs = s; grants = granted (worker_of op) w ++ g.grants })
  IsFenced-step = record {
    spent = spent_step;
    once = append-AreApart (granted (worker_of op) w) g.grants new_apart f.once cross;
  }

step-IsFenced :
    (e : ℕ × Op) (g : World) → is_replay e.1 ≡ false → IsSound g → IsFenced g → IsFenced (step e g)
unfolding step
step-IsFenced (now, op) g fresh v f = go (exec now op g.jobs) refl
  where
    go :
        (r : Result (Jobs × List Job))
        → exec now op g.jobs ≡ r
        → IsFenced (after g (worker_of op) r)
    go (ok (s, w)) h = IsFenced-step now op g s w v f fresh (exec-IsStep now op g.jobs s w v.good h)
    go (err _) h = f

abbrev pub HasNoReplay : List (ℕ × Op) → Type 0
HasNoReplay [] = Unit {0}
HasNoReplay ((now, op) ∷ es) = (is_replay op ≡ false) × HasNoReplay es

-- From a sound world in which it holds, every history with no replay ends in a world in which it
-- holds: no attempt of a job has been handed out twice, to one worker or to two, and no row is
-- behind an attempt of it that was handed out.
pub run-IsFenced :
    (es : List (ℕ × Op)) (g : World) → HasNoReplay es → IsSound g → IsFenced g → IsFenced (run es g)
unfolding run
run-IsFenced [] g h v f = f
run-IsFenced ((now, op) ∷ es) g h v f =
    run-IsFenced es (step (now, op) g) h.1 (step-IsSound (now, op) g v)
      (step-IsFenced (now, op) g h.0 v f)

-- From a sound and fenced start: once a later attempt of a job was handed out, in a history with
-- no replay, every report of an earlier one is fenced out. It changes nothing and returns no row,
-- whoever sends it and whenever.
pub stale_report_fenced :
    (es : List (ℕ × Op)) (g : World) (now : ℕ) (r : Report) (b : Grant)
    → HasNoReplay es
    → IsSound g
    → IsFenced g
    → In b (run es g).grants
    → b.id ≡ (fence_of r).id
    → (fence_of r).attempt < b.attempt
    → send now r (run es g).jobs.rows ≡ ok ((run es g).jobs.rows, [])
stale_report_fenced es g now r b h v f m e lt =
    send_fenced now r (run es g).jobs.rows (run-IsSound es g v).good out
  where
    out : (j : Job) → In j (run es g).jobs.rows → owned (fence_of r) j ≡ false
    out j n = elim (Bool-cases (owned (fence_of r) j)) [
      | inl y ↦
          let (i, _, _, a) = owned-eq (fence_of r) j y in
          absurd (omega (arith, (run-IsFenced es g h v f).spent b j m n (e ∙ sym i), a))
      | inr o ↦ o
    ]
