-- ===== src/History/Owners.antt =====
-- History: the running rows and the deliveries they stand on.
use pgjobq.Base.{
  ℕ, ◌<◌, ◌≡◌, refl, sym, ◌∙◌, ap, subst, inl, inr, String, Option, none, some, List, [], ◌∷◌, ◌++◌,
  arith, In, In-map, In-append, append-In, map-In,
}
use pgjobq.Types.{Job, running, is_running}
use pgjobq.Table.{Result, ok, err}
use pgjobq.Sql.Enqueue.{Jobs}
use pgjobq.Sql.Enqueue.Insert.{IsGood}
use pgjobq.History.{Op, Grant, World, exec, step, run, after, grant, granted, worker_of}
use pgjobq.History.Effect.{hold, start, leave, restart}
use pgjobq.History.Steps.{Origin, stayed, created, changed, IsStep, exec-IsStep}

pub record IsSound (g : World) : Type 0 where
  pub good : IsGood g.jobs
  -- Every delivery handed out was of an id that the sequence has passed.
  pub known : (a : Grant) → In a g.grants → a.id < g.jobs.next_id
  -- Deliveries are counted from 1.
  pub positive : (a : Grant) → In a g.grants → 0 < a.attempt
  -- A running job has a worker, and that worker was handed this attempt of this job.
  pub held :
      (j : Job)
      → In j g.jobs.rows
      → j.state ≡ running
      → (w : String) × (j.worker_id ≡ some w) × In (grant w j) g.grants

grant-eq : (w : String) (j k : Job) → k.id ≡ j.id → k.attempt ≡ j.attempt → grant w j ≡ grant w k
grant-eq w j k e f = cc

module _ (now : ℕ) (op : Op) (g : World) (s : Jobs) (w : List Job) (v : IsSound g)
    (st : IsStep now op g.jobs s w) where
  abbrev new_grants : List Grant
  new_grants = granted (worker_of op) w ++ g.grants

  old_grant : (a : Grant) → In a g.grants → In a new_grants
  old_grant a m = append-In (granted (worker_of op) w) g.grants a (inr m)

  -- A new delivery is of a row that the claim wrote.
  pub new_grant :
      (a : Grant)
      → In a (granted (worker_of op) w)
      → (x : String) × (worker_of op ≡ some x) × ((k : Job) × In k w × (a ≡ grant x k))
  new_grant a m = go (worker_of op) refl m
    where
      go :
          (o : Option String)
          → worker_of op ≡ o
          → In a (granted o w)
          → (x : String) × (worker_of op ≡ some x) × ((k : Job) × In k w × (a ≡ grant x k))
      go none e r = absurd r
      go (some x) e r = (x, e, In-map (grant x) w a r)

  known_step : (a : Grant) → In a new_grants → a.id < s.next_id
  known_step a m = elim (In-append (granted (worker_of op) w) g.grants a m) [
    | inl r ↦
        let (x, e, (k, n, q)) = new_grant a r in
        let c = st.claimed x e k n in rw q (st.good.below k c.here)
    | inr r ↦ omega (arith, v.known a r, st.grows)
  ]

  positive_step : (a : Grant) → In a new_grants → 0 < a.attempt
  positive_step a m = elim (In-append (granted (worker_of op) w) g.grants a m) [
    | inl r ↦
        let (x, e, (k, n, q)) = new_grant a r in
        let c = st.claimed x e k n in rw q (omega (arith, c.attempt))
    | inr r ↦ v.positive a r
  ]

  held_step :
      (k : Job)
      → In k s.rows
      → k.state ≡ running
      → (x : String) × (k.worker_id ≡ some x) × In (grant x k) new_grants
  held_step k m r = go (st.rows k m)
    where
      go :
          Origin now op g.jobs w k
          → (x : String) × (k.worker_id ≡ some x) × In (grant x k) new_grants
      go (stayed n) = let (x, e, i) = v.held k n r in (x, e, old_grant (grant x k) i)
      go (created _ _ e _ _) = cc
      go (changed j n id (hold e f h) _ _) =
          let (x, q, i) = v.held j n (sym e ∙ r) in
          (x, h ∙ q, old_grant _ (subst (λ a. In a g.grants) (grant-eq x j k id f) i))
      go (changed j n id (start x e _ _ _ q) i _) = (
        x,
        q,
        append-In (granted (worker_of op) w) g.grants _ (inl (rw e (map-In (grant x) w k i))),
      )
      go (changed j n id (leave _ e _) _ _) = cc (ap is_running r)
      go (changed j n id (restart _ _ e _) _ _) = cc

  IsSound-step : IsSound (record { jobs = s; grants = new_grants })
  IsSound-step = record {
    good = st.good;
    known = known_step;
    positive = positive_step;
    held = held_step;
  }

pub step-IsSound : (e : ℕ × Op) (g : World) → IsSound g → IsSound (step e g)
unfolding step
step-IsSound (now, op) g v = go (exec now op g.jobs) refl
  where
    go :
        (r : Result (Jobs × List Job)) → exec now op g.jobs ≡ r → IsSound (after g (worker_of op) r)
    go (ok (s, w)) h = IsSound-step now op g s w v (exec-IsStep now op g.jobs s w v.good h)
    go (err _) h = v

-- Every history from a sound world ends in one: the constraints, the ids and the indexes hold of
-- the table, every delivery that was handed out has an attempt of at least 1, and each running job
-- is under a worker that some claim handed exactly this attempt of this job.
pub run-IsSound : (es : List (ℕ × Op)) (g : World) → IsSound g → IsSound (run es g)
unfolding run
run-IsSound [] g v = v
run-IsSound (e ∷ es) g v = run-IsSound es (step e g) (step-IsSound e g v)
