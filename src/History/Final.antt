-- ===== src/History/Final.antt =====
-- History: a step against the state machine's table.
use pgjobq.Base.{
  ℕ, ◌<◌, ◌≡◌, refl, sym, ◌∙◌, ap, ◌⊎◌, inl, inr, Bool, true, false, List, [], ◌∷◌, In, arith,
}
use pgjobq.Types.{Job, JobState, available, succeeded, cancelled}
use pgjobq.StateMachine.{can_transition}
use pgjobq.Table.{Result, ok, err}
use pgjobq.Table.Ids.{In-id_eq}
use pgjobq.Sql.Enqueue.{Jobs}
use pgjobq.Sql.Enqueue.Insert.{IsGood}
use pgjobq.History.{Op, World, exec, step, run, after, worker_of, is_enqueue}
use pgjobq.History.Effect.{Effect, hold, start, leave, restart}
use pgjobq.History.Steps.{Origin, stayed, created, changed, exec-IsStep}
use pgjobq.History.Owners.{IsSound, step-IsSound}

Effect-permitted :
    (op : Op) (j k : Job)
    → Effect op j k
    → (k.state ≡ j.state) ⊎ (can_transition j.state k.state ≡ true)
unfolding can_transition
Effect-permitted op j k (hold e _ _) = inl e
Effect-permitted op j k (start _ _ e f _ _) = inr (rw (e, f))
Effect-permitted op j k (leave h _ _) = inr h
Effect-permitted op j k (restart _ e f _) = inr (rw (e, f))

-- After a statement that went through on a valid table, each row of the table either was in it before under
-- its id, in the same state or in one from which the table of `state-machine.ts` permits the new one; or
-- the statement is an insertion, and the row is the next of the sequence of ids and available.
pub exec_permitted :
    (now : ℕ) (op : Op) (s s' : Jobs) (w : List Job) (k : Job)
    → IsGood s
    → exec now op s ≡ ok (s', w)
    → In k s'.rows
    → ((is_enqueue op ≡ true) × (k.id ≡ s.next_id) × (k.state ≡ available))
      ⊎ ((j : Job) × In j s.rows
          × (k.id ≡ j.id)
          × ((k.state ≡ j.state) ⊎ (can_transition j.state k.state ≡ true)))
exec_permitted now op s s' w k v h m = go ((exec-IsStep now op s s' w v h).rows k m)
  where
    go :
        Origin now op s w k
        → ((is_enqueue op ≡ true) × (k.id ≡ s.next_id) × (k.state ≡ available))
          ⊎ ((j : Job) × In j s.rows
              × (k.id ≡ j.id)
              × ((k.state ≡ j.state) ⊎ (can_transition j.state k.state ≡ true)))
    go (stayed n) = inr (k, n, refl, inl refl)
    go (created y i e _ _) = inl (y, i, e)
    go (changed j n i f _ _) = inr (j, n, i, Effect-permitted op j k f)

abbrev pub is_final : JobState → Bool
is_final succeeded = true
is_final cancelled = true
is_final _ = false

final_stuck : (a b : JobState) → is_final a ≡ true → can_transition a b ≡ true → ⊥
unfolding can_transition
final_stuck a b f h = ground arith

step_final :
    (e : ℕ × Op) (g : World) (st : JobState)
    → is_final st ≡ true
    → (i : ℕ) → i < g.jobs.next_id
    → IsSound g
    → ((j : Job) → In j g.jobs.rows → j.id ≡ i → j.state ≡ st)
    → (i < (step e g).jobs.next_id)
      × ((k : Job) → In k (step e g).jobs.rows → k.id ≡ i → k.state ≡ st)
unfolding step
step_final (now, op) g st fin i lt v all = go (exec now op g.jobs) refl
  where
    go :
        (r : Result (Jobs × List Job))
        → exec now op g.jobs ≡ r
        → (i < (after g (worker_of op) r).jobs.next_id)
          × ((k : Job) → In k (after g (worker_of op) r).jobs.rows → k.id ≡ i → k.state ≡ st)
    go (err _) h = (lt, all)
    go (ok (s, w)) h =
        let x = exec-IsStep now op g.jobs s w v.good h in
        (omega (arith, x.grows), λ k m e. row k (x.rows k m) e)
      where
        row : (k : Job) → Origin now op g.jobs w k → k.id ≡ i → k.state ≡ st
        row k (stayed n) e = all k n e
        row k (created _ q _ _ _) e = absurd (omega (arith, q, e))
        row k (changed j n q f _ _) e = elim (Effect-permitted op j k f) [
          | inl same ↦ same ∙ all j n (sym q ∙ e)
          | inr moved ↦ absurd (final_stuck st k.state fin (rw (all j n (sym q ∙ e)) at moved))
        ]

run_final :
    (es : List (ℕ × Op)) (g : World) (st : JobState)
    → is_final st ≡ true
    → (i : ℕ) → i < g.jobs.next_id
    → IsSound g
    → ((j : Job) → In j g.jobs.rows → j.id ≡ i → j.state ≡ st)
    → (k : Job) → In k (run es g).jobs.rows
    → k.id ≡ i
    → k.state ≡ st
unfolding run
run_final [] g st fin i lt v all = all
run_final (e ∷ es) g st fin i lt v all =
    let (lt', all') = step_final e g st fin i lt v all in
    run_final es (step e g) st fin i lt' (step-IsSound e g v) all'

-- In a history from a sound start, a job of it that has succeeded or was cancelled is in that
-- state in the later table if that still has it, whatever workers, reapers and operators do,
-- replays included.
pub finished_stays :
    (es : List (ℕ × Op)) (g : World) (j k : Job)
    → IsSound g
    → In j g.jobs.rows
    → is_final j.state ≡ true
    → In k (run es g).jobs.rows
    → k.id ≡ j.id
    → k.state ≡ j.state
finished_stays es g j k v m fin n e =
    run_final es g j.state fin j.id (v.good.below j m) v
      (λ i r q. ap (λ (x : Job). x.state) (In-id_eq g.jobs.rows i j v.good.ids r m q)) k n e
