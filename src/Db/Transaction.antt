-- ===== src/Db/Transaction.antt =====
-- packages/core/src/db.ts, `withTransaction`, and what packages/core/src/migrate.ts does in one.
pub mod Atomic
use pgjobq.Base.{
  ℕ, String, Bool, List, ◌⊎◌, inl, inr, Option, none, some, [], ◌∷◌, ◌++◌, if◌then◌else◌,
}
use pgjobq.Db.{DriverError, QueryError, raw, wrap_db_error}
use pgjobq.Migrate.{Migration, Db, is_applied, bookkeeping}

-- The function that runs in the transaction: each query changes the database or fails, and what comes
-- next may depend on which; of the rows that a query returns nothing is kept.
pub data Body (S R : Type 0) : Type 0 where
  returns : R → Body S R
  throws : QueryError → Body S R
  queries : (S → DriverError ⊎ S) → (Option QueryError → Body S R) → Body S R

-- An open transaction of Postgres: what it has written so far, or that one of its statements failed.
pub data Status (S : Type 0) : Type 0 where
  open_at : S → Status S
  aborted : Status S

-- The end of a COMMIT: its answer came, or did not, and then it may have been made or not.
pub data CommitEnd : Type 0 where
  went_through : CommitEnd
  lost : DriverError → Bool → CommitEnd

-- What the connection does: it may not be had, BEGIN may fail, and the end of the COMMIT.
pub record Line : Type 0 where
  pub connects : Option QueryError
  pub begins : Option DriverError
  pub commits : CommitEnd

-- Postgres refuses every statement after one that failed.
abbrev pub in_failed_transaction : DriverError
in_failed_transaction = record {
  code = some "25P02";
  message = some "current transaction is aborted, commands ignored until end of transaction block";
}

-- `tx.query`
unfoldable pub answer :
    {S : Type 0} → (S → DriverError ⊎ S) → Status S → Option QueryError × Status S
unfolding wrap_db_error
answer q aborted = (some (wrap_db_error in_failed_transaction), aborted)
answer q (open_at s) = elim (q s) [
  | inl e ↦ (some (wrap_db_error e), aborted)
  | inr t ↦ (none, open_at t)
]

-- `fn(tx)`
unfoldable pub run_body : {S R : Type 0} → Body S R → Status S → (QueryError ⊎ R) × Status S
unfolding answer
run_body (returns r) st = (inr r, st)
run_body (throws e) st = (inl e, st)
run_body (queries q k) st = let a = answer q st in run_body (k a.0) a.1

-- What a COMMIT makes of the database; one that ends an aborted transaction rolls it back.
unfoldable pub committed : {S : Type 0} → S → Status S → S
committed s (open_at w) = w
committed s aborted = s

abbrev pub on_commit : {S R : Type 0} → S → Status S → R → CommitEnd → S × (QueryError ⊎ R)
unfolding committed
on_commit s st r went_through = (committed s st, inr r)
on_commit s st r (lost d made) = (if made then committed s st else s, inl (raw d))

-- After `fn`: the COMMIT, or the ROLLBACK, whose own failure is swallowed and which needs no answer, since
-- the server drops the transaction of a connection that breaks.
unfoldable pub ended :
    {S R : Type 0} → Line → S → (QueryError ⊎ R) × Status S → S × (QueryError ⊎ R)
unfolding committed
ended l s (inl e, st) = (s, inl e)
ended l s (inr r, st) = on_commit s st r l.commits

-- `withTransaction`: the database after it, and what the caller gets.
unfoldable pub with_transaction : {S R : Type 0} → Line → Body S R → S → S × (QueryError ⊎ R)
unfolding run_body ended
with_transaction l b s = elim l.connects [
  | some e ↦ (s, inl e)
  | none ↦ elim l.begins [ some d ↦ (s, inl (raw d)) | none ↦ ended l s (run_body b (open_at s)) ]
]

-- `await`: an error that is not caught ends the function.
unfoldable pub awaited : {S R : Type 0} → Body S R → Option QueryError → Body S R
awaited b none = b
awaited b (some e) = throws e

-- The two queries of a migration. `runs` says whether Postgres runs a script through, after those before
-- it; a version is the primary key of its row.
unfoldable pub run_script :
    (String → List String → Bool) → DriverError → Migration → Db → DriverError ⊎ Db
run_script runs d m db =
    if runs m.sql db.scripts then inr (record db { scripts = db.scripts ++ m.sql ∷ [] }) else inl d

unfoldable pub record_version : DriverError → Migration → Db → DriverError ⊎ Db
record_version d m db =
    if is_applied db.applied m
    then inl d
    else inr (record db { applied = db.applied ++ bookkeeping m ∷ [] })

-- The function that `migrateUp` passes to `withTransaction`; its result is the version, of which nothing
-- is made. `d` and `d'` are the errors of the two queries.
unfoldable pub migration_body :
    (String → List String → Bool) → DriverError → DriverError → Migration → Body Db ℕ
unfolding awaited
migration_body runs d d' m =
    queries (run_script runs d m)
      (awaited (queries (record_version d' m) (awaited (returns m.version))))
