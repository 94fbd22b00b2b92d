-- ===== src/Db/Transaction/Atomic.antt =====
-- Db.Transaction: all of a function's statements, or none.
use pgjobq.Base.{
  List, String, ◌≡◌, refl, ◌⊎◌, inl, inr, Bool, true, false, Option, none, some, Bool-cases,
}
use pgjobq.Db.{DriverError, QueryError, raw, wrap_db_error}
use pgjobq.Db.Transaction.{
  Body, returns, throws, queries, Status, open_at, aborted, CommitEnd, went_through, lost, Line,
  answer, run_body, committed, ended, with_transaction, awaited, run_script, record_version,
  migration_body,
}
use pgjobq.Migrate.{Migration, Db, is_applied, apply_migration}

-- The function without a transaction: what its statements make of the database, if all go through and it
-- returns.
unfoldable pub direct : {S R : Type 0} → Body S R → S → Option (S × R)
direct (returns r) s = some (s, r)
direct (throws e) s = none
direct (queries q k) s = elim (q s) [ inl e ↦ none | inr t ↦ direct (k none) t ]

-- The function catches no error of a query.
pub Strict : {S R : Type 0} → Body S R → Type 0
Strict (returns r) = Unit {0}
Strict (throws e) = Unit {0}
Strict {R = R} (queries q k) =
    ((e : QueryError) → (e' : QueryError) × (k (some e) ≡ throws e')) × Strict (k none)

abbrev pub IsGood : Line → Type 0
IsGood l = (l.connects ≡ none) × (l.begins ≡ none) × (l.commits ≡ went_through)

pub data Atomic {S R : Type 0} (l : Line) (b : Body S R) (s : S)
    : S × (QueryError ⊎ R) → Type 0 where
  unchanged : (e : QueryError) → (IsGood l → direct b s ≡ none) → Atomic l b s (s, inl e)
  whole : (w : S) (r : R) → direct b s ≡ some (w, r) → Atomic l b s (w, inr r)
  unanswered :
      (w : S) (r : R) (d : DriverError)
      → direct b s ≡ some (w, r)
      → l.commits ≡ lost d true
      → Atomic l b s (w, inl (raw d))

-- How the function ends in an open transaction: with all of its statements made, or with an error.
data Ran {S R : Type 0} (b : Body S R) (s : S) : (QueryError ⊎ R) × Status S → Type 0 where
  ran : (w : S) (r : R) → direct b s ≡ some (w, r) → Ran b s (inr r, open_at w)
  failed_at : (e : QueryError) (st : Status S) → direct b s ≡ none → Ran b s (inl e, st)

sum_cases : {A B : Type 0} → (x : A ⊎ B) → ((a : A) × (x ≡ inl a)) ⊎ ((b : B) × (x ≡ inr b))
sum_cases (inl a) = inl (a, refl)
sum_cases (inr b) = inr (b, refl)

later :
    {S R : Type 0}
    → {q : S → DriverError ⊎ S} {k : Option QueryError → Body S R} {s t : S} → q s ≡ inr t
    → {p : (QueryError ⊎ R) × Status S} → Ran (k none) t p
    → Ran (queries q k) s p
unfolding direct
later e (ran w r f) = ran w r (rw (direct, e) f)
later e (failed_at x st f) = failed_at x st (rw (direct, e) f)

run_body-Ran : {S R : Type 0} → (b : Body S R) (s : S) → Strict b → Ran b s (run_body b (open_at s))
unfolding run_body answer direct Strict
run_body-Ran (returns r) s h = ran s r refl
run_body-Ran (throws e) s h = failed_at e (open_at s) refl
run_body-Ran (queries q k) s (caught, h) = elim (sum_cases (q s)) [
  | inl (d, e) ↦
      let (e', c) = caught (wrap_db_error d) in
      rw (run_body, answer, e, c) (failed_at e' aborted (rw (direct, e) refl))
  | inr (t, e) ↦ rw (run_body, answer, e) (later e (run_body-Ran (k none) t h))
]

none-some : {A : Type 0} {a : A} → some a ≡ none → ⊥
none-some e = cc

commit-Atomic :
    {S R : Type 0}
    → (b : Body S R) (s : S) (end : CommitEnd) (p : (QueryError ⊎ R) × Status S) → Ran b s p
    → Atomic
        (record { connects = none; begins = none; commits = end })
        b
        s
        (ended (record { connects = none; begins = none; commits = end }) s p)
unfolding ended committed
commit-Atomic b s went_through p (ran w r f) = whole w r f
commit-Atomic b s (lost d true) p (ran w r f) = unanswered w r d f refl
commit-Atomic b s (lost d false) p (ran w r f) = unchanged (raw d) (λ (_, _, e). cc)
commit-Atomic b s went_through p (failed_at e st f) = unchanged e (λ _. f)
commit-Atomic b s (lost d made) p (failed_at e st f) = unchanged e (λ _. f)

line-Atomic :
    {S R : Type 0}
    → (start : Option QueryError) (begin : Option DriverError) (end : CommitEnd) (b : Body S R)
      (s : S)
    → Strict b
    → let l : Line = record { connects = start; begins = begin; commits = end } in
      Atomic l b s (with_transaction l b s)
unfolding with_transaction
line-Atomic (some e) begin end b s h = unchanged e (λ (c, _, _). cc)
line-Atomic none (some d) end b s h = unchanged (raw d) (λ (_, c, _). cc)
line-Atomic none none end b s h =
    commit-Atomic b s end (run_body b (open_at s)) (run_body-Ran b s h)

-- A transaction whose function catches no error of a query ends in one of three ways: the caller gets an
-- error and the database is as it was, which on a line that does not fail happens only if a statement or
-- the function failed; the caller gets the result, and all statements were made; or the answer to the
-- COMMIT was lost after it was made, and the caller gets an error though all statements were made.
pub with_transaction-Atomic :
    {S R : Type 0}
    → (l : Line) (b : Body S R) (s : S) → Strict b
    → Atomic l b s (with_transaction l b s)
with_transaction-Atomic l b s h = line-Atomic l.connects l.begins l.commits b s h

abbrev pub good_line : Line
good_line = record { connects = none; begins = none; commits = went_through }

-- The database after a transaction of which the caller gets the result.
pub made : {S R : Type 0} → S × (QueryError ⊎ R) → Option S
made (s, inl e) = none
made (s, inr r) = some s

pub migration_body-Strict :
    (runs : String → List String → Bool) (d d' : DriverError) (m : Migration)
    → Strict (migration_body runs d d' m)
unfolding migration_body awaited Strict
migration_body-Strict runs d d' m = ((λ e. (e, refl)), ((λ e. (e, refl)), tt))

-- On a line that does not fail, the two queries of a migration in `withTransaction` come to what
-- `apply_migration` says of them.
pub migration_in_transaction :
    (runs : String → List String → Bool) (d d' : DriverError) (m : Migration) (db : Db)
    → made (with_transaction good_line (migration_body runs d d' m) db) ≡ apply_migration runs m db
unfolding made with_transaction migration_body awaited run_body answer ended committed run_script
    record_version apply_migration
migration_in_transaction runs d d' m db = elim (Bool-cases (runs m.sql db.scripts)) [
  | inr n ↦ rw (ended, run_body, answer, run_script, n) refl
  | inl y ↦ elim (Bool-cases (is_applied db.applied m)) [
    | inl a ↦ rw (ended, run_body, answer, run_script, y, record_version, a) refl
    | inr f ↦ rw (ended, run_body, answer, run_script, y, record_version, f) refl
  ]
]
