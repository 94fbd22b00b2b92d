-- ===== src/Examples/Migrations.antt =====
-- Migrations at a directory of two files, of which one was applied.
use pgjobq.Base.{
  ◌≡◌, refl, inl, inr, String, Bool, true, false, some, ◌++◌, List, [], ◌∷◌, any, where_, order_by,
  insert_by, any,
}
use pgjobq.Migrate.{
  Migration, Db, by_version, find_duplicate, load_migrations, is_applied, has_changed, find_changed,
  pending, latest_version, bookkeeping, apply_migration, apply_pending, finish_up, migrate_pending,
  migrate_checked, migrate_loaded, migrate_from, migrate_up, assert_schema_current,
}
use pgjobq.Db.{DriverError}
use pgjobq.Db.Transaction.{
  with_transaction, migration_body, awaited, run_body, answer, ended, committed, run_script,
  record_version,
}
use pgjobq.Db.Transaction.Atomic.{Atomic, good_line, with_transaction-Atomic, migration_body-Strict}
use pgjobq.Migrate.Applying.{Ended, migrate_loaded-Ended}
use pgjobq.Migrate.Gate.{Known, migrate_up_opens}

abbrev all_run : String → List String → Bool
all_run script before = true

abbrev initial_schema : Migration
initial_schema = record {
  version = 1;
  name = "initial_schema";
  filename = "001_initial_schema.sql";
  sql = "CREATE TABLE job";
  checksum = "aa";
}

abbrev indexes : Migration
indexes = record {
  version = 2;
  name = "indexes";
  filename = "002_indexes.sql";
  sql = "CREATE INDEX";
  checksum = "bb";
}

abbrev two_files : List Migration
two_files = indexes ∷ initial_schema ∷ []

abbrev first_applied : Db
first_applied = record {
  scripts = "CREATE TABLE job" ∷ [];
  applied = record { version = 1; name = "initial_schema"; checksum = "aa" } ∷ [];
}

first_applied-Known : Known first_applied.applied two_files
first_applied-Known a (inl e) = (initial_schema, inr (inl refl), cc)
first_applied-Known a (inr i) = absurd i

migrate_up_opens_example :
    assert_schema_current two_files (migrate_up all_run two_files first_applied).0 ≡ inr 2
unfolding migrate_up migrate_from load_migrations find_duplicate order_by insert_by by_version
    migrate_loaded migrate_checked find_changed has_changed pending where_ is_applied any
    migrate_pending apply_pending apply_migration finish_up latest_version bookkeeping
migrate_up_opens_example =
    migrate_up_opens all_run two_files first_applied
      (record { applied = 2 ∷ []; already_current = false; current_version = 2 })
      first_applied-Known refl

migrate_loaded-Ended_example :
    Ended
      (initial_schema ∷ indexes ∷ [])
      (pending first_applied.applied (initial_schema ∷ indexes ∷ []))
      first_applied
      (migrate_loaded all_run (initial_schema ∷ indexes ∷ []) first_applied)
migrate_loaded-Ended_example =
    migrate_loaded-Ended all_run (initial_schema ∷ indexes ∷ []) first_applied

abbrev taken : DriverError
taken = record { code = some "23505"; message = some "duplicate key" }

with_transaction-Atomic_example :
    Atomic good_line (migration_body all_run taken taken indexes) first_applied (
      record {
        scripts = "CREATE TABLE job" ∷ "CREATE INDEX" ∷ [];
        applied = first_applied.applied ++ bookkeeping indexes ∷ [];
      },
      inr 2,
    )
unfolding with_transaction migration_body awaited run_body answer ended committed run_script
    record_version is_applied any
with_transaction-Atomic_example =
    with_transaction-Atomic good_line (migration_body all_run taken taken indexes) first_applied
      (migration_body-Strict all_run taken taken indexes)
