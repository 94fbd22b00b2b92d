-- ===== src/History/Steps.antt =====
-- One step of a history, row by row.
use pgjobq.Base.{
  ℕ, ◌+◌, ◌≤◌, ◌≡◌, refl, sym, ◌∙◌, ap, subst, inl, inr, String, Bool, true, Option, none, some,
  List, [], ◌∷◌, arith, where_, In, In-where, In-map, map-In, where-In, ◌≢◌, map, In-append,
}
use pgjobq.Types.{Job, available}
use pgjobq.Table.{Result, ok, err}
use pgjobq.Table.Update.{update-ok, In-update_where, In-written}
use pgjobq.Table.Ids.{Distinct, where-Distinct}
use pgjobq.Sql.Claim.{claimed}
use pgjobq.Table.Valid.{update-IsValid, where-IsValid}
use pgjobq.Sql.Enqueue.{EnqueueRow, Jobs, new_job, insert_job}
use pgjobq.Sql.Enqueue.Insert.{
  IsGood, Inserts, refused, kept, added, insert_job-Inserts, insert_job-IsGood,
}
use pgjobq.Sql.Retention.{prune_terminal_jobs}
use pgjobq.Sql.Query.{purge_queue}
use pgjobq.History.{
  Op, enqueues, claims, claims_aging, prunes, purges, exec, on_rows, inserted, deleted, worker_of,
  is_enqueue,
}
use pgjobq.History.Effect.{Effect, selects, image, image-id, image-Effect, is_update, exec-update}

-- Where a row of the new table comes from.
pub data Origin (now : ℕ) (op : Op) (s : Jobs) (w : List Job) (k : Job) : Type 0 where
  stayed : In k s.rows → Origin now op s w k
  created :
      is_enqueue op ≡ true
      → k.id ≡ s.next_id
      → k.state ≡ available
      → k.attempt ≡ 0
      → k.errors ≡ []
      → Origin now op s w k
  changed :
      (j : Job)
      → In j s.rows
      → k.id ≡ j.id
      → Effect op j k
      → In k w
      → k ≡ image now op j
      → Origin now op s w k

on_rows_ok :
    (s s' : Jobs) (r : Result (List Job × List Job)) (w : List Job)
    → on_rows s r ≡ ok (s', w)
    → (r ≡ ok (s'.rows, w)) × (s'.next_id ≡ s.next_id)
on_rows_ok s s' (ok (t, x)) w h = (ground arith, ground arith)
on_rows_ok s s' (err e) w h = cc

-- What a claim hands out.
pub record IsClaimed (x : String) (s s' : Jobs) (k : Job) : Type 0 where
  pub here : In k s'.rows
  pub row : Job
  pub old : In row s.rows
  pub id : k.id ≡ row.id
  pub attempt : k.attempt ≡ row.attempt + 1
  pub worker : k.worker_id ≡ some x

pub record IsStep (now : ℕ) (op : Op) (s s' : Jobs) (w : List Job) : Type 0 where
  pub good : IsGood s'
  pub grows : s.next_id ≤ s'.next_id
  pub rows : (k : Job) → In k s'.rows → Origin now op s w k
  pub apart : (x : String) → worker_of op ≡ some x → Distinct w
  pub claimed : (x : String) → worker_of op ≡ some x → (k : Job) → In k w → IsClaimed x s s' k

map-Distinct :
    (f : Job → Job) (t : List Job) → ((j : Job) → (f j).id ≡ j.id) → Distinct t → Distinct (map f t)
map-Distinct f [] keep d = tt
map-Distinct f (j ∷ t) keep d = (away, map-Distinct f t keep d.1)
  where
    away : (k : Job) → In k (map f t) → (f j).id ≢ k.id
    away k m e =
        let (i, r, q) = In-map f t k m in
        d.0 i r (sym (keep j) ∙ e ∙ ap (λ (x : Job). x.id) q ∙ keep i)

image-IsClaimed :
    (now : ℕ) (op : Op) (x : String) (s s' : Jobs) (j : Job)
    → worker_of op ≡ some x
    → In j s.rows
    → In (image now op j) s'.rows
    → IsClaimed x s s' (image now op j)
unfolding image claimed
image-IsClaimed now (claims cs locked p) x s s' j e m here = record {
  here = here;
  row = j;
  old = m;
  id = refl;
  attempt = refl;
  worker = e;
}
image-IsClaimed now (claims_aging cs locked p threshold) x s s' j e m here = record {
  here = here;
  row = j;
  old = m;
  id = refl;
  attempt = refl;
  worker = e;
}
image-IsClaimed now _ x s s' j e m here = cc

update-IsStep :
    (now : ℕ) (op : Op) (s s' : Jobs) (w : List Job)
    → is_update op ≡ true
    → IsGood s
    → exec now op s ≡ ok (s', w)
    → IsStep now op s s' w
update-IsStep now op s s' w u v h =
    let (done, same) = on_rows_ok s s' _ w (sym (exec-update now op s u) ∙ h) in
    let t = s.rows in
    let (new, rows, _, _) = update-ok (selects now op t) (image now op) t s'.rows w done in
    record {
      good = rw same (
          update-IsValid s.next_id (selects now op t) (image now op) t s'.rows w (image-id now op)
            done v);
      grows = omega (arith, same);
      rows = λ k m. elim (In-update_where (selects now op t) (image now op) t k (rw new at m)) [
        | inl (r, _) ↦ stayed r
        | inr (j, r, y, e) ↦
            changed j r (ap (λ (x : Job). x.id) e ∙ image-id now op j)
              (subst (Effect op j) (sym e) (image-Effect now op t j v r y))
              (rw (rows, e) (map-In (image now op) _ j (where-In (selects now op t) t j r y))) e
      ];
      apart = λ x e.
          rw rows (map-Distinct (image now op) _ (image-id now op) (where-Distinct _ t v.ids));
      claimed = λ x e k m.
          let (j, r, y, q, here) =
            In-written (selects now op t) (image now op) t s'.rows w k done m in
          rw q (image-IsClaimed now op x s s' j e r (rw q at here));
    }

state_of :
    {a s' : Jobs} {x w : List Job}
    → ◌≡◌ {A = Result (Jobs × List Job)} (ok (a, x)) (ok (s', w))
    → a ≡ s'
state_of h = cc

insert-IsStep :
    (now : ℕ) (op : Op) (s s' : Jobs) (w : List Job) (q : Result (Jobs × Option ℕ)) (r : EnqueueRow)
    → worker_of op ≡ none
    → is_enqueue op ≡ true
    → IsGood s
    → Inserts now r s q
    → q ≡ insert_job now r s
    → inserted q ≡ ok (s', w)
    → IsStep now op s s' w
unfolding new_job
insert-IsStep now op s s' w q r idle adds v (refused _) same h = cc
insert-IsStep now op s s' w q r idle adds v (kept _ _) same h =
    subst (λ z. IsStep now op s z w) (state_of h)
      (record {
        good = insert_job-IsGood now r s _ _ v (sym same);
        grows = omega arith;
        rows = λ k m. stayed m;
        apart = λ x e. cc;
        claimed = λ x e. cc;
      })
insert-IsStep now op s s' w q r idle adds v (added c f) same h =
    subst (λ z. IsStep now op s z w) (state_of h)
      (record {
        good = insert_job-IsGood now r s _ _ v (sym same);
        grows = omega arith;
        rows = λ k m. elim (In-append s.rows _ k m) [
          | inl old ↦ stayed old
          | inr (inl e) ↦ created adds (rw e) (rw e) (rw e) (rw e)
          | inr (inr z) ↦ absurd z
        ];
        apart = λ x e. cc;
        claimed = λ x e. cc;
      })

delete-IsStep :
    (now : ℕ) (op : Op) (s s' : Jobs) (p : Job → Bool) (x w : List Job)
    → worker_of op ≡ none
    → IsGood s
    → deleted s (where_ p s.rows, x) ≡ ok (s', w)
    → IsStep now op s s' w
delete-IsStep now op s s' p x w idle v h =
    subst (λ z. IsStep now op s z w) (state_of h)
      (record {
        good = where-IsValid s.next_id p s.rows v;
        grows = omega arith;
        rows = λ k m. stayed (In-where p s.rows k m).0;
        apart = λ x e. cc;
        claimed = λ x e. cc;
      })

-- A statement that goes through on a valid table leaves a valid table, and each of its rows was
-- there before, or is new, available and untried, or comes by one step of a job's life from a row
-- that had its id. The sequence of ids never falls.
pub exec-IsStep :
    (now : ℕ) (op : Op) (s s' : Jobs) (w : List Job)
    → IsGood s
    → exec now op s ≡ ok (s', w)
    → IsStep now op s s' w
unfolding exec prune_terminal_jobs purge_queue
exec-IsStep now (enqueues r) s s' w v h =
    insert-IsStep now _ s s' w (insert_job now r s) r refl refl v (insert_job-Inserts now r s) refl
      h
exec-IsStep now (prunes p cs locked) s s' w v h = delete-IsStep now _ s s' _ _ w refl v h
exec-IsStep now (purges locked queue states limit) s s' w v h =
    delete-IsStep now _ s s' _ _ w refl v h
exec-IsStep now (claims cs locked p) s s' w v h = update-IsStep now _ s s' w refl v h
exec-IsStep now op s s' w v h = update-IsStep now op s s' w refl v h
