-- ===== src/Sql/Query/Replay.antt =====
-- Sql.Query: a replay and the unique key that the dead job gave up.
use pgjobq.Base.{
  ℕ, ◌≡◌, refl, sym, ◌∙◌, ◌≢◌, ◌⊎◌, inl, inr, Bool, true, false, ◌&&◌, ◌||◌, List, map, arith,
  where_, any, ◌==◌, str_eq, ap, all-In, In, Bool-cases,
}
use pgjobq.Types.{Job, is_active, is_dead}
use pgjobq.Table.{ok, err, PgError, check_row, clash, key_eq, unique_rows, update, update_where}
use pgjobq.Table.Update.{update_passes, written_checks, update_where-In, In-update_where}
use pgjobq.Table.Ids.{In-id_eq, update_where-Distinct}
use pgjobq.Table.Pairs.{unique_rows-clash, unique_rows_of, clash_comm}
use pgjobq.Table.Valid.{IsValid}
use pgjobq.Sql.Query.{replayed, replay_dead_jobs}

-- j and k are of one queue and hold one unique key.
abbrev pub same_unique : Job → Job → Bool
same_unique j k = str_eq j.queue k.queue && key_eq j.unique_key k.unique_key

replayed-check : (now : ℕ) (j : Job) → check_row j ≡ true → check_row (replayed now j) ≡ true
unfolding check_row replayed
replayed-check now j c = ground arith

replayed-clash :
    (now : ℕ) (j k : Job)
    → same_unique j k ≡ true
    → is_active k.state ≡ true
    → clash (replayed now j) k ≡ true
unfolding clash replayed
replayed-clash now j k h a = ground arith

abbrev pub picks : List ℕ → Job → Bool
picks wanted j = any (λ i. i == j.id) wanted && is_dead j.state

active_not_dead : (k : Job) → is_active k.state ≡ true → is_dead k.state ≡ false
active_not_dead k a = ground arith

replayed-id : (now : ℕ) (j : Job) {n : ℕ} → (replayed now j).id ≡ n → j.id ≡ n
unfolding replayed
replayed-id now j e = e

replayed-keeps : (now : ℕ) (j : Job) → (replayed now j).id ≡ j.id
unfolding replayed
replayed-keeps now j = refl

dead_not_active : (j k : Job) → is_dead j.state ≡ true → is_active k.state ≡ true → j ≢ k
dead_not_active j k d a e = cc (d, active_not_dead k a, ap (λ (x : Job). is_dead x.state) e)

-- On a valid table, if one of the dead jobs to be replayed shares its queue and its unique key with
-- a job that is available or running, the bulk replay fails as a whole with a unique violation.
pub replay_dead_jobs_conflict :
    {next : ℕ} (now : ℕ) (wanted : List ℕ) (t : List Job) (j k : Job)
    → IsValid next t
    → In j t
    → any (λ i. i == j.id) wanted ≡ true
    → is_dead j.state ≡ true
    → In k t
    → is_active k.state ≡ true
    → same_unique j k ≡ true
    → replay_dead_jobs now wanted t ≡ err PgError.unique_violation
unfolding replay_dead_jobs update
replay_dead_jobs_conflict now wanted t j k v m w d n a s = rw (
  written_checks (picks wanted) (replayed now) t
      (λ i r y. replayed-check now i (all-In check_row t i v.checks r)),
  broken,
)
  where
    new : List Job
    new = update_where (picks wanted) (replayed now) t

    both : (x y : Bool) → x ≡ true → y ≡ true → (x && y) ≡ true
    both x y f g = ground arith

    skips : (x y : Bool) → y ≡ false → (x && y) ≡ false
    skips x y f = ground arith

    returned : In (replayed now j) new
    returned =
        rw (both (any (λ i. i == j.id) wanted) (is_dead j.state) w d) at
          (update_where-In (picks wanted) (replayed now) t j m)

    rival : In k new
    rival =
        rw (skips (any (λ i. i == k.id) wanted) (is_dead k.state) (active_not_dead k a)) at
          (update_where-In (picks wanted) (replayed now) t k n)

    apart : (replayed now j).id ≢ k.id
    apart e = dead_not_active j k d a (In-id_eq t j k v.ids m n (replayed-id now j e))

    broken : unique_rows new ≡ false
    broken = elim (Bool-cases (unique_rows new)) [
      | inl u ↦ cc (
        replayed-clash now j k s a,
        unique_rows-clash new (replayed now j) k u returned rival apart,
      )
      | inr f ↦ f
    ]

-- No other row that is active, or replayed too, shares the unique key of a replayed one.
abbrev pub IsFree : List ℕ → List Job → Type 0
IsFree wanted t =
    (j k : Job)
    → In j t
    → In k t
    → picks wanted j ≡ true
    → j.id ≢ k.id
    → same_unique j k ≡ true
    → (is_active k.state ≡ false) × (picks wanted k ≡ false)

bits_one :
    (q i u d a : Bool)
    → d ≡ false
    → ((q && u) ≡ true → a ≡ false)
    → (q && (i || (u && d && a))) ≡ false
    → (q && (i || (u && true && a))) ≡ false
bits_one q i u d a e f h = ground arith

bits_two :
    (q i u d a : Bool)
    → d ≡ false
    → ((q && u) ≡ true → ⊥)
    → (q && (i || (u && d && a))) ≡ false
    → (q && (i || (u && true && true))) ≡ false
bits_two q i u d a e f h = ground arith

module _ (now : ℕ) (wanted : List ℕ) (t : List Job) (keys : unique_rows t ≡ true)
    (free : IsFree wanted t) where
  dead_idle : (j : Job) → picks wanted j ≡ true → is_active j.state ≡ false
  dead_idle j h = ground arith

  one_replayed :
      (j k : Job)
      → In j t
      → In k t
      → picks wanted j ≡ true
      → j.id ≢ k.id
      → clash (replayed now j) k ≡ false
  unfolding clash replayed
  one_replayed j k m n y ne =
      bits_one (str_eq j.queue k.queue) (key_eq j.idempotency_key k.idempotency_key)
        (key_eq j.unique_key k.unique_key) (is_active j.state) (is_active k.state) (dead_idle j y)
        (λ e. (free j k m n y ne e).0) (unique_rows-clash t j k keys m n ne)

  two_replayed :
      (j k : Job)
      → In j t
      → In k t
      → picks wanted j ≡ true
      → picks wanted k ≡ true
      → j.id ≢ k.id
      → clash (replayed now j) (replayed now k) ≡ false
  unfolding clash replayed
  two_replayed j k m n y z ne =
      bits_two (str_eq j.queue k.queue) (key_eq j.idempotency_key k.idempotency_key)
        (key_eq j.unique_key k.unique_key) (is_active j.state) (is_active k.state) (dead_idle j y)
        (λ e. cc (z, (free j k m n y ne e).1)) (unique_rows-clash t j k keys m n ne)

  no_clash :
      (x y : Job)
      → In x (update_where (picks wanted) (replayed now) t)
      → In y (update_where (picks wanted) (replayed now) t)
      → x.id ≢ y.id
      → clash x y ≡ false
  unfolding replayed
  no_clash x y m n ne =
      pair (In-update_where (picks wanted) (replayed now) t x m)
        (In-update_where (picks wanted) (replayed now) t y n)
    where
      pair :
          (In x t × (picks wanted x ≡ false))
            ⊎ ((j : Job) × In j t × (picks wanted j ≡ true) × (x ≡ replayed now j))
          → (In y t × (picks wanted y ≡ false))
            ⊎ ((k : Job) × In k t × (picks wanted k ≡ true) × (y ≡ replayed now k))
          → clash x y ≡ false
      pair (inl (r, _)) (inl (s, _)) = unique_rows-clash t x y keys r s ne
      pair (inr (j, r, a, e)) (inl (s, _)) =
          rw e (one_replayed j y r s a (λ q. ne (ap (λ (z : Job). z.id) e ∙ q)))
      pair (inl (r, _)) (inr (k, s, b, f)) =
          clash_comm x y
          ∙ rw f (one_replayed k x s r b (λ q. ne (sym (ap (λ (z : Job). z.id) f ∙ q))))
      pair (inr (j, r, a, e)) (inr (k, s, b, f)) =
          rw (e, f)
            (two_replayed j k r s a b
              λ q. ne (ap (λ (z : Job). z.id) e ∙ q ∙ sym (ap (λ (z : Job). z.id) f)))

-- On a valid table, if no active or replayed row shares the unique key of a replayed one, the bulk
-- replay goes through, and returns exactly the dead jobs asked for, available with no attempt spent.
pub replay_dead_jobs_passes :
    {next : ℕ} (now : ℕ) (wanted : List ℕ) (t : List Job)
    → IsValid next t
    → IsFree wanted t
    → replay_dead_jobs now wanted t
      ≡ ok (
        update_where (picks wanted) (replayed now) t,
        map (replayed now) (where_ (picks wanted) t),
      )
unfolding replay_dead_jobs
replay_dead_jobs_passes now wanted t v free =
    update_passes (picks wanted) (replayed now) t
      (written_checks (picks wanted) (replayed now) t
        (λ j r y. replayed-check now j (all-In check_row t j v.checks r)))
      (unique_rows_of _ (update_where-Distinct _ _ t (replayed-keeps now) v.ids)
        (no_clash now wanted t v.keys free))
