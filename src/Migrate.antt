-- ===== src/Migrate.antt =====
-- packages/core/src/migrate.ts: versioned migrations, applied in order and recorded.
use pgjobq.Base.{
  ℕ, max, String, ◌⊎◌, inl, inr, Bool, true, false, ◌&&◌, not, Option, none, some, List, [], ◌∷◌,
  ◌++◌, map, leb, ◌==◌, str_eq, if◌then◌else◌, where_, any, order_by,
}
pub mod Applying
pub mod Gate

pub record Migration : Type 0 where
  pub version : ℕ
  pub name : String
  pub filename : String
  pub sql : String
  pub checksum : String

pub record AppliedMigration : Type 0 where
  pub version : ℕ
  pub name : String
  pub checksum : String

-- What the migrations change: the table of migrations, and the scripts that were committed, the
-- oldest first, which stand for the schema.
pub record Db : Type 0 where
  pub scripts : List String
  pub applied : List AppliedMigration

pub data MigrationError : Type 0 where
  duplicate_version : ℕ → MigrationError
  changed_since_applied : ℕ → MigrationError
  database_error : ℕ → MigrationError
  not_current : ℕ → ℕ → List String → MigrationError

pub record MigrateResult : Type 0 where
  pub applied : List ℕ
  pub already_current : Bool
  pub current_version : ℕ

-- The loop over `seen`: the first version that came before.
unfoldable pub find_duplicate : List ℕ → List Migration → Option ℕ
find_duplicate seen [] = none
find_duplicate seen (m ∷ ms) =
    if any (λ v. v == m.version) seen then some m.version else find_duplicate (m.version ∷ seen) ms

unfoldable pub by_version : Migration → Migration → Bool
by_version a b = leb a.version b.version

-- `loadMigrations`, from the files that it has read and whose names it has matched.
unfoldable pub load_migrations : List Migration → MigrationError ⊎ List Migration
load_migrations files = elim (find_duplicate [] files) [
  | some v ↦ inl (duplicate_version v)
  | none ↦ inr (order_by by_version files)
]

unfoldable pub is_applied : List AppliedMigration → Migration → Bool
is_applied rows m = any (λ a. a.version == m.version) rows

-- The row of a version, and whether its checksum is another one.
unfoldable pub has_changed : List AppliedMigration → Migration → Bool
has_changed [] m = false
has_changed (a ∷ rows) m =
    let rest = has_changed rows m in
    if a.version == m.version then not (str_eq a.checksum m.checksum) else rest

unfoldable pub find_changed : List AppliedMigration → List Migration → Option ℕ
find_changed rows [] = none
find_changed rows (m ∷ ms) =
    let rest = find_changed rows ms in if has_changed rows m then some m.version else rest

unfoldable pub pending : List AppliedMigration → List Migration → List Migration
pending rows ms = where_ (λ m. not (is_applied rows m)) ms

unfoldable pub latest_version : List Migration → ℕ
latest_version [] = 0
latest_version (m ∷ []) = m.version
latest_version (m ∷ n ∷ ms) = latest_version (n ∷ ms)

unfoldable pub bookkeeping : Migration → AppliedMigration
bookkeeping m = record { version = m.version; name = m.name; checksum = m.checksum }

-- One transaction. `runs` says whether Postgres runs a script through, after those before it; the
-- bookkeeping row has the version as its primary key.
unfoldable pub apply_migration : (String → List String → Bool) → Migration → Db → Option Db
apply_migration runs m db =
    if runs m.sql db.scripts && not (is_applied db.applied m)
    then some
        (record { scripts = db.scripts ++ m.sql ∷ []; applied = db.applied ++ bookkeeping m ∷ [] })
    else none

pub record Progress : Type 0 where
  pub db : Db
  pub applied : List ℕ
  pub failed : Option ℕ

unfoldable pub apply_pending : (String → List String → Bool) → List Migration → Db → Progress
apply_pending runs [] db = record { db = db; applied = []; failed = none }
apply_pending runs (m ∷ ms) db = elim (apply_migration runs m db) [
  | none ↦ record { db = db; applied = []; failed = some m.version }
  | some next ↦
      let rest = apply_pending runs ms next in
      record { db = rest.db; applied = m.version ∷ rest.applied; failed = rest.failed }
]

unfoldable pub finish_up : List Migration → Option ℕ → List ℕ → MigrationError ⊎ MigrateResult
finish_up ms (some v) applied_now = inl (database_error v)
finish_up ms none applied_now =
    inr (record {
      applied = applied_now;
      already_current = false;
      current_version = latest_version ms;
    })

unfoldable pub migrate_pending :
    (String → List String → Bool)
    → List Migration
    → List Migration
    → Db
    → Db × (MigrationError ⊎ MigrateResult)
migrate_pending runs ms [] db =
    (db, inr (record { applied = []; already_current = true; current_version = latest_version ms }))
migrate_pending runs ms (m ∷ rest) db =
    let p = apply_pending runs (m ∷ rest) db in (p.db, finish_up ms p.failed p.applied)

unfoldable pub migrate_checked :
    (String → List String → Bool)
    → List Migration
    → Option ℕ
    → Db
    → Db × (MigrationError ⊎ MigrateResult)
migrate_checked runs ms (some v) db = (db, inl (changed_since_applied v))
migrate_checked runs ms none db = migrate_pending runs ms (pending db.applied ms) db

-- `migrateUp` once the migrations are loaded: the database it leaves, and its answer.
unfoldable pub migrate_loaded :
    (String → List String → Bool) → List Migration → Db → Db × (MigrationError ⊎ MigrateResult)
migrate_loaded runs ms db = migrate_checked runs ms (find_changed db.applied ms) db

unfoldable pub migrate_from :
    (String → List String → Bool)
    → MigrationError ⊎ List Migration
    → Db
    → Db × (MigrationError ⊎ MigrateResult)
migrate_from runs (inl e) db = (db, inl e)
migrate_from runs (inr ms) db = migrate_loaded runs ms db

unfoldable pub migrate_up :
    (String → List String → Bool) → List Migration → Db → Db × (MigrationError ⊎ MigrateResult)
migrate_up runs files db = migrate_from runs (load_migrations files) db

-- `Math.max` over the applied versions, and 0 where there are none.
unfoldable pub schema_version : List AppliedMigration → ℕ
schema_version [] = 0
schema_version (a ∷ rows) = max a.version (schema_version rows)

unfoldable pub assert_from : MigrationError ⊎ List Migration → Db → MigrationError ⊎ ℕ
assert_from (inl e) db = inl e
assert_from (inr ms) db =
    let actual = schema_version db.applied in
    if actual == latest_version ms
    then inr actual
    else inl
        (not_current actual (latest_version ms) (map (λ m. m.filename) (pending db.applied ms)))

unfoldable pub assert_schema_current : List Migration → Db → MigrationError ⊎ ℕ
assert_schema_current files db = assert_from (load_migrations files) db
