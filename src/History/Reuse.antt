-- ===== src/History/Reuse.antt =====
-- History: the attempts after a replay.
use text.Mathlib.TextPositions.{eq_refl}
use pgjobq.Base.{
  subst, ℕ, ◌≡◌, refl, sym, ◌∙◌, ap, Bool, true, ◌&&◌, List, [], ◌∷◌, In, arith, ◌==◌, ==_iff,
}
use pgjobq.Types.{Job, QueueConfig, is_dead}
use pgjobq.Table.{ok}
use pgjobq.Table.Update.{update-ok, update_where-In}
use pgjobq.Table.Ids.{In-id_eq}
use pgjobq.Table.Valid.{IsValid, update-IsValid}
use pgjobq.Sql.Claim.{ClaimParams, claimed, claim_jobs, claim_order}
use pgjobq.Sql.Claim.Best.{claim_jobs_row}
use pgjobq.Sql.Claim.Candidates.{claim_by-IsValid, claimed-id}
use pgjobq.Sql.Query.{replayed, replay_dead_job}
use pgjobq.Sql.Report.{FenceParams, owned, completed}
use pgjobq.Sql.Report.Fence.{send, completes, takes, written, send_owner}

replayed-keeps : (now : ℕ) (j : Job) → (replayed now j).id ≡ j.id
unfolding replayed
replayed-keeps now j = refl

replayed-attempt : (now : ℕ) (j : Job) → (replayed now j).attempt ≡ 0
unfolding replayed
replayed-attempt now j = refl

both : (x y : Bool) → x ≡ true → y ≡ true → (x && y) ≡ true
both x y f g = ground arith

claim_is_owned :
    (now : ℕ) (f : FenceParams) (j : Job)
    → j.id ≡ f.id
    → j.attempt ≡ 0
    → f.attempt ≡ 1
    → owned f (claimed now f.worker_id j) ≡ true
unfolding owned claimed
claim_is_owned now f j i z o = ground (arith, eq_refl f.worker_id)

replay-IsValid :
    (next now id : ℕ) (t t' w : List Job)
    → replay_dead_job now id t ≡ ok (t', w)
    → IsValid next t
    → IsValid next t'
unfolding replay_dead_job
replay-IsValid next now id t t' w h v = update-IsValid next _ _ t t' w (replayed-keeps now) h v

replayed_there :
    (now : ℕ) (t t' w : List Job) (j : Job)
    → replay_dead_job now j.id t ≡ ok (t', w)
    → In j t
    → is_dead j.state ≡ true
    → In (replayed now j) t'
unfolding replay_dead_job
replayed_there now t t' w j h m d = rw ((update-ok _ _ t t' w h).0) (
    rw (both (j.id == j.id) (is_dead j.state) ((==_iff _ _).1 refl) d) at
      (update_where-In (λ k. k.id == j.id && is_dead k.state) (replayed now) t j m))

claim-IsValid :
    (next : ℕ) (cs : List QueueConfig) (now : ℕ) (locked : ℕ → Bool) (p : ClaimParams)
    (t t' w : List Job)
    → claim_jobs cs now locked p t ≡ ok (t', w)
    → IsValid next t
    → IsValid next t'
unfolding claim_jobs
claim-IsValid next cs now locked p t t' w h v =
    claim_by-IsValid claim_order next cs now locked p t t' w h v

-- The job f.id is dead, an operator replays it, and a worker claims it again. Then a completion
-- under that worker's fence for attempt 1 is taken for the new delivery's, whoever sends it: a run
-- of the same worker that was handed attempt 1 before the job died is not told apart.
pub replay_reopens_fence :
    {next : ℕ} (now later last : ℕ) (f : FenceParams) (locked : ℕ → Bool) (cs : List QueueConfig)
    (p : ClaimParams) (t t' t'' w w' : List Job) (j k : Job)
    → IsValid next t
    → In j t
    → is_dead j.state ≡ true
    → f.id ≡ j.id
    → f.worker_id ≡ p.worker_id
    → f.attempt ≡ 1
    → replay_dead_job now j.id t ≡ ok (t', w)
    → claim_jobs cs later locked p t' ≡ ok (t'', w')
    → In k w'
    → k.id ≡ j.id
    → (t3 : List Job) × (send last (completes f) t'' ≡ ok (t3, completed last k ∷ []))
unfolding takes written
replay_reopens_fence {next} now later last f locked cs p t t' t'' w w' j k v m d i e o h h' n q =
    let (t3, sent, _, _) = send_owner last (completes f) t'' k v'' here mine in (t3, sent)
  where
    v' : IsValid next t'
    v' = replay-IsValid next now j.id t t' w h v

    v'' : IsValid next t''
    v'' = claim-IsValid next cs later locked p t' t'' w' h' v'

    here : In k t''
    here = let (_, _, _, _, _, r) = claim_jobs_row cs later locked p t' t'' w' v' h' k n in r

    mine : owned f k ≡ true
    mine =
        let (j2, r, _, _, from, _) = claim_jobs_row cs later locked p t' t'' w' v' h' k n in
        let id2 = sym (claimed-id later p.worker_id j2) ∙ ap (λ (x : Job). x.id) (sym from) ∙ q in
        let same =
          In-id_eq t' j2 (replayed now j) v'.ids r (replayed_there now t t' w j h m d)
            (id2 ∙ sym (replayed-keeps now j)) in
        subst (λ x. owned f x ≡ true) (ap (λ x. claimed later x j2) e ∙ sym from)
          (claim_is_owned later f j2 (id2 ∙ sym i)
            (ap (λ (x : Job). x.attempt) same ∙ replayed-attempt now j) o)
