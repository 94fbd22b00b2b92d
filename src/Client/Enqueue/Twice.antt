-- ===== src/Client/Enqueue/Twice.antt =====
-- Client.Enqueue: two calls with one idempotency key.
use text.Mathlib.TextEquality.{eq_iff}
use pgjobq.Base.{
  ℕ, ◌+◌, ◌≡◌, refl, ap, subst, inl, inr, String, true, Option, none, some, arith, In, any-In,
  append-In, Bool-cases, str_eq, ==_iff, ◌==◌,
}
use pgjobq.Types.{Job}
use pgjobq.Table.{Result, check_row, clash, key_eq}
use pgjobq.Table.Pairs.{str_eq_comm, key_eq_comm, unique_rows-clash}
use pgjobq.Sql.Enqueue.{EnqueueRow, Jobs, new_job, insert_job}
use pgjobq.Sql.Enqueue.Insert.{
  IsGood, Inserts, refused, kept, added, insert_job-Inserts, insert_job-IsGood,
}
use pgjobq.Client.{Answer, returns, throws}
use pgjobq.Client.Enqueue.{EnqueueResult, enqueue_row, insertion_answered, resolve_conflict}
use pgjobq.Client.Enqueue.Dedup.{
  holds_key, alone, Enqueued, created, existing, blocked, enqueue_row-Enqueued,
}

str_eq_join : (a b k : String) → str_eq a k ≡ true → str_eq b k ≡ true → str_eq a b ≡ true
str_eq_join a b k h f = ground (arith, eq_iff a k, eq_iff b k, eq_iff a b)

key_eq_join : (a b k : Option String) → key_eq a k ≡ true → key_eq b k ≡ true → key_eq a b ≡ true
key_eq_join (some a) (some b) (some k) h f = str_eq_join a b k h f
key_eq_join none b k h f = ground (arith, h)
key_eq_join (some a) none k h f = ground (arith, f)
key_eq_join (some a) (some b) none h f = ground (arith, f)

-- Two rows that hold one key collide, and so are one row.
holders_clash :
    (q : String) (key : Option String) (j k : Job)
    → holds_key q key j ≡ true
    → holds_key q key k ≡ true
    → clash j k ≡ true
unfolding clash
holders_clash q key j k h f =
    ground
      (arith, str_eq_join j.queue k.queue q, key_eq_join j.idempotency_key k.idempotency_key key)

holder_unique :
    (s : Jobs) (q : String) (key : Option String) (j k : Job)
    → IsGood s
    → In j s.rows
    → In k s.rows
    → holds_key q key j ≡ true
    → holds_key q key k ≡ true
    → k.id ≡ j.id
holder_unique s q key j k v m n h f = elim (Bool-cases (k.id == j.id)) [
  | inl y ↦ (==_iff k.id j.id).0 y
  | inr x ↦ absurd (
      cc (
        holders_clash q key k j f h,
        unique_rows-clash s.rows k j v.keys n m (λ e. cc (x, (==_iff k.id j.id).1 e)),
      ))
]

new_clash :
    (now n : ℕ) (r : EnqueueRow) (j : Job)
    → holds_key r.queue r.idempotency_key j ≡ true
    → clash (new_job now n r) j ≡ true
unfolding clash new_job
new_clash now n r j h =
    ground (arith, str_eq_comm r.queue j.queue, key_eq_comm r.idempotency_key j.idempotency_key)

enqueue_row-IsGood :
    (now : ℕ) (r : EnqueueRow) (s : Jobs) → IsGood s → IsGood (enqueue_row alone now r.queue r s).1
unfolding enqueue_row resolve_conflict
enqueue_row-IsGood now r s v = go (insert_job-Inserts now r s) refl
  where
    go :
        {q : Result (Jobs × Option ℕ)}
        → Inserts now r s q
        → insert_job now r s ≡ q
        → IsGood (insertion_answered alone r.queue r s q).1
    go (refused _) e = v
    go (kept _ _) e = insert_job-IsGood now r s _ _ v e
    go (added _ _) e = insert_job-IsGood now r s _ _ v e

abbrev answered_id : Answer EnqueueResult → Option ℕ
answered_id (returns x) = some x.id
answered_id (throws e) = none

new_holds :
    (now n : ℕ) (r : EnqueueRow)
    → str_eq r.queue r.queue ≡ true
    → key_eq r.idempotency_key r.idempotency_key ≡ true
    → holds_key r.queue r.idempotency_key (new_job now n r) ≡ true
unfolding new_job
new_holds now n r h f = ground arith

-- After an enqueue that returns, the job that it names holds the key.
named_holds :
    (now : ℕ) (r : EnqueueRow) (s s' : Jobs) (x : EnqueueResult) (q : Answer EnqueueResult × Jobs)
    → str_eq r.queue r.queue ≡ true
    → key_eq r.idempotency_key r.idempotency_key ≡ true
    → Enqueued now r s q
    → q ≡ (returns x, s')
    → (j : Job) × In j s'.rows
      × (holds_key r.queue r.idempotency_key j ≡ true)
      × (some j.id ≡ some x.id)
unfolding new_job
named_holds now r s s' x q h f (created c) e = (
  new_job now s.next_id r,
  subst (λ (z : Jobs). In (new_job now s.next_id r) z.rows)
      (ap (λ (p : Answer EnqueueResult × Jobs). p.1) e) (append-In s.rows _ _ (inr (inl refl))),
  new_holds now s.next_id r h f,
  ap (λ (p : Answer EnqueueResult × Jobs). answered_id p.0) e,
)
named_holds now r s s' x q h f (existing j m y) e = (
  j,
  subst (λ (z : Jobs). In j z.rows) (ap (λ (p : Answer EnqueueResult × Jobs). p.1) e) m,
  y,
  ap (λ (p : Answer EnqueueResult × Jobs). answered_id p.0) e,
)
named_holds now r s s' x q h f (blocked j out m y) e =
    absurd (cc (ap (λ (p : Answer EnqueueResult × Jobs). answered_id p.0) e))

-- Enqueue is idempotent: on a valid table, once an enqueue with an idempotency key has returned an id,
-- every later one with the same key on the same queue returns that id, marked as a duplicate, and makes no
-- job, as long as the table was left as it was and both rows pass the checks and are in the ranges of
-- their columns, a smallint for the priority; what else the later one asks for may differ.
pub enqueue_twice :
    (now later : ℕ) (r r' : EnqueueRow) (s s' : Jobs) (x : EnqueueResult)
    → IsGood s
    → check_row (new_job now s.next_id r) ≡ true
    → check_row (new_job later s'.next_id r') ≡ true
    → r'.queue ≡ r.queue
    → r'.idempotency_key ≡ r.idempotency_key
    → key_eq r.idempotency_key r.idempotency_key ≡ true
    → enqueue_row alone now r.queue r s ≡ (returns x, s')
    → enqueue_row alone later r'.queue r' s' ≡ (
      returns (record { id = x.id; deduplicated = true }),
      record s' { next_id = s'.next_id + 1 },
    )
enqueue_twice now later r r' s s' x v c c' eq ek k e =
    let (j, m, y, i) =
      named_holds now r s s' x _ (str_refl r.queue) k (enqueue_row-Enqueued now r s c) e in
    let v' : IsGood s' =
      subst IsGood (ap (λ (p : Answer EnqueueResult × Jobs). p.1) e)
        (enqueue_row-IsGood now r s v) in
    again j m (rw (eq, ek) y) (some_id i) v' (enqueue_row-Enqueued later r' s' c')
  where
    str_refl : (a : String) → str_eq a a ≡ true
    str_refl a = (eq_iff a a).1 refl

    some_id : {a b : ℕ} → some a ≡ some b → a ≡ b
    some_id p = cc

    again :
        (j : Job)
        → In j s'.rows
        → holds_key r'.queue r'.idempotency_key j ≡ true
        → j.id ≡ x.id
        → IsGood s'
        → {q : Answer EnqueueResult × Jobs} → Enqueued later r' s' q
        → q ≡ (
          returns (record { id = x.id; deduplicated = true }),
          record s' { next_id = s'.next_id + 1 },
        )
    again j m y i v' (created f) = absurd (
        cc (
          f,
          any-In (clash (new_job later s'.next_id r')) s'.rows j m
              (new_clash later s'.next_id r' j y),
        ))
    again j m y i v' (existing l n z) =
        rw (holder_unique s' r'.queue r'.idempotency_key j l v' m n y z, i) refl
    again j m y i v' (blocked l out n z) = absurd (cc (out j m, y))
