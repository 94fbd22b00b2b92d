-- ===== src/Sql/Enqueue/Insert.antt =====
-- Sql.Enqueue: an insertion under the unique indexes.
use pgjobq.Base.{
  ℕ, ◌+◌, ◌<◌, ◌≡◌, refl, sym, ◌∙◌, ap, subst, ◌≢◌, ◌⊎◌, inl, inr, true, false, Option, none, some,
  List, [], ◌∷◌, ◌++◌, arith, any, In, all-In, In-all, any-In, In-append, Bool-cases,
}
use pgjobq.Types.{Job}
use pgjobq.Table.{Result, ok, err, PgError, check_row, clash}
use pgjobq.Table.Ids.{Distinct, append-Distinct}
use pgjobq.Table.Pairs.{clash_comm, unique_rows-clash, unique_rows_of}
use pgjobq.Table.Valid.{IsValid}
use pgjobq.Sql.Enqueue.{EnqueueRow, Jobs, new_job, insert_job}

abbrev pub IsGood : Jobs → Type 0
IsGood s = IsValid s.next_id s.rows

-- The three ends of an insertion.
pub data Inserts (now : ℕ) (r : EnqueueRow) (s : Jobs) : Result (Jobs × Option ℕ) → Type 0 where
  refused :
      check_row (new_job now s.next_id r) ≡ false → Inserts now r s (err PgError.check_violation)
  kept :
      check_row (new_job now s.next_id r) ≡ true
      → any (clash (new_job now s.next_id r)) s.rows ≡ true
      → Inserts now r s (ok (record s { next_id = s.next_id + 1 }, none))
  added :
      check_row (new_job now s.next_id r) ≡ true
      → any (clash (new_job now s.next_id r)) s.rows ≡ false
      → Inserts now r s (
          ok (
            record { rows = s.rows ++ new_job now s.next_id r ∷ []; next_id = s.next_id + 1 },
            some s.next_id,
          ))

pub insert_job-Inserts :
    (now : ℕ) (r : EnqueueRow) (s : Jobs) → Inserts now r s (insert_job now r s)
unfolding insert_job
insert_job-Inserts now r s = elim (Bool-cases (check_row (new_job now s.next_id r))) [
  | inr n ↦ rw n (refused n)
  | inl y ↦ elim (Bool-cases (any (clash (new_job now s.next_id r)) s.rows)) [
    | inl c ↦ rw (y, c) (kept y c)
    | inr f ↦ rw (y, f) (added y f)
  ]
]

later : (n : ℕ) (t : List Job) → IsValid n t → IsValid (n + 1) t
later n t v = record {
  checks = v.checks;
  keys = v.keys;
  ids = v.ids;
  below = λ j m. omega (arith, v.below j m);
}

new_job-id : (now n : ℕ) (r : EnqueueRow) → (new_job now n r).id ≡ n
unfolding new_job
new_job-id now n r = refl

append-IsValid :
    (n : ℕ) (t : List Job) (j : Job)
    → IsValid n t
    → j.id ≡ n
    → check_row j ≡ true
    → any (clash j) t ≡ false
    → IsValid (n + 1) (t ++ j ∷ [])
append-IsValid n t j v e c f = record {
  checks = In-all check_row _ (λ k m. good k (In-append t (j ∷ []) k m));
  keys =
      unique_rows_of _ distinct
        (λ x y m o ne. apart x y ne (In-append t (j ∷ []) x m) (In-append t (j ∷ []) y o));
  ids = distinct;
  below = λ k m. bound k (In-append t (j ∷ []) k m);
}
  where
    distinct : Distinct (t ++ j ∷ [])
    distinct = append-Distinct t j v.ids (λ k m q. omega (arith, v.below k m))

    good : (k : Job) → In k t ⊎ ((k ≡ j) ⊎ ⊥) → check_row k ≡ true
    good k (inl m) = all-In check_row t k v.checks m
    good k (inr (inl q)) = rw q c
    good k (inr (inr z)) = absurd z

    bound : (k : Job) → In k t ⊎ ((k ≡ j) ⊎ ⊥) → k.id < n + 1
    bound k (inl m) = omega (arith, v.below k m)
    bound k (inr (inl q)) = rw (q, e) (omega arith)
    bound k (inr (inr z)) = absurd z

    clear : (k : Job) → In k t → clash j k ≡ false
    clear k m = elim (Bool-cases (clash j k)) [
      | inl y ↦ cc (f, any-In (clash j) t k m y)
      | inr o ↦ o
    ]

    apart :
        (x y : Job)
        → x.id ≢ y.id
        → In x t ⊎ ((x ≡ j) ⊎ ⊥)
        → In y t ⊎ ((y ≡ j) ⊎ ⊥)
        → clash x y ≡ false
    apart x y ne (inl m) (inl o) = unique_rows-clash t x y v.keys m o ne
    apart x y ne (inl m) (inr (inl q)) = rw q (clash_comm x j ∙ clear x m)
    apart x y ne (inr (inl q)) (inl o) = rw q (clear y o)
    apart x y ne (inr (inl q)) (inr (inl p)) = absurd (ne (ap (λ (z : Job). z.id) (q ∙ sym p)))
    apart x y ne (inr (inr z)) _ = absurd z
    apart x y ne _ (inr (inr z)) = absurd z

ok_state :
    {a b : Jobs} {x y : Option ℕ}
    → ◌≡◌ {A = Result (Jobs × Option ℕ)} (ok (a, x)) (ok (b, y))
    → a ≡ b
ok_state e = cc

-- An insertion keeps the table valid, whichever way it ends.
pub insert_job-IsGood :
    (now : ℕ) (r : EnqueueRow) (s s' : Jobs) (o : Option ℕ)
    → IsGood s
    → insert_job now r s ≡ ok (s', o)
    → IsGood s'
insert_job-IsGood now r s s' o v h = go (insert_job-Inserts now r s) h
  where
    go : {q : Result (Jobs × Option ℕ)} → Inserts now r s q → q ≡ ok (s', o) → IsGood s'
    go (refused _) e = cc
    go (kept _ _) e = subst IsGood (ok_state e) (later s.next_id s.rows v)
    go (added c f) e = subst IsGood (ok_state e) (
        append-IsValid s.next_id s.rows (new_job now s.next_id r) v (new_job-id now s.next_id r) c
          f)
