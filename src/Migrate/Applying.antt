-- ===== src/Migrate/Applying.antt =====
-- Migrate: how far `migrateUp` came, and what the database records of it.
use mathlib.Core.List.{append-nil, append_assoc}
use pgjobq.Base.{
  ℕ, suc, ◌≡◌, refl, sym, ◌∙◌, ap, subst, ◌⊎◌, inl, inr, String, Bool, Option, none, some, List, [],
  ◌∷◌, ◌++◌, map, take, arith,
}
use pgjobq.Migrate.{
  Migration, MigrationError, MigrateResult, Db, Progress, bookkeeping, apply_migration,
  apply_pending, pending, find_changed, finish_up, migrate_pending, migrate_checked, migrate_loaded,
  latest_version,
}

-- The database after these migrations, each with its bookkeeping row.
unfoldable pub advance : List Migration → Db → Db
advance ms db = record {
  scripts = db.scripts ++ map (λ m. m.sql) ms;
  applied = db.applied ++ map bookkeeping ms;
}

advance-[] : (db : Db) → advance [] db ≡ db
unfolding advance
advance-[] db = rw (append-nil db.scripts, append-nil db.applied) refl

advance_one :
    (m : Migration) (ms : List Migration) (db : Db)
    → advance ms (advance (m ∷ []) db) ≡ advance (m ∷ ms) db
unfolding advance
advance_one m ms db =
    rw
      (
        append_assoc db.scripts (m.sql ∷ []) (map (λ n. n.sql) ms),
        append_assoc db.applied (bookkeeping m ∷ []) (map bookkeeping ms),
      )
      refl

apply_migration-cases :
    (runs : String → List String → Bool) (m : Migration) (db : Db)
    → (apply_migration runs m db ≡ none) ⊎ (apply_migration runs m db ≡ some (advance (m ∷ []) db))
unfolding apply_migration advance
apply_migration-cases runs m db = ground arith

-- How far the loop comes: some first migrations, and all of them unless one failed.
abbrev pub CameTo : List Migration → Db → Progress → ℕ → Type 0
CameTo ms db p k =
    (p.db ≡ advance (take k ms) db)
    × (p.applied ≡ map (λ m. m.version) (take k ms))
    × (p.failed ≡ none → take k ms ≡ ms)

apply_pending-none :
    (runs : String → List String → Bool) (m : Migration) (ms : List Migration) (db : Db)
    → apply_migration runs m db ≡ none
    → apply_pending runs (m ∷ ms) db ≡ record { db = db; applied = []; failed = some m.version }
unfolding apply_pending
apply_pending-none runs m ms db e = rw (e, apply_pending) refl

apply_pending-some :
    (runs : String → List String → Bool) (m : Migration) (ms : List Migration) (db next : Db)
    → apply_migration runs m db ≡ some next
    → apply_pending runs (m ∷ ms) db ≡ record {
      db = (apply_pending runs ms next).db;
      applied = m.version ∷ (apply_pending runs ms next).applied;
      failed = (apply_pending runs ms next).failed;
    }
unfolding apply_pending
apply_pending-some runs m ms db next e = rw (e, apply_pending) refl

apply_pending-CameTo :
    (runs : String → List String → Bool) (ms : List Migration) (db : Db)
    → (k : ℕ) × CameTo ms db (apply_pending runs ms db) k
unfolding apply_pending
apply_pending-CameTo runs [] db = (0, (sym (advance-[] db), refl, λ e. refl))
apply_pending-CameTo runs (m ∷ ms) db = elim (apply_migration-cases runs m db) [
  | inl e ↦
      subst (λ p. (k : ℕ) × CameTo (m ∷ ms) db p k) (sym (apply_pending-none runs m ms db e))
        (0, (sym (advance-[] db), refl, λ f. cc))
  | inr e ↦
      let (k, (d, v, f)) = apply_pending-CameTo runs ms (advance (m ∷ []) db) in
      subst (λ p. (k : ℕ) × CameTo (m ∷ ms) db p k)
        (sym (apply_pending-some runs m ms db (advance (m ∷ []) db) e))
        (suc k, (d ∙ advance_one m (take k ms) db, ap (◌∷◌ m.version) v, λ g. ap (◌∷◌ m) (f g)))
]

finish_up-inr :
    (ms : List Migration) (o : Option ℕ) (vs : List ℕ) (r : MigrateResult)
    → finish_up ms o vs ≡ inr r
    → (o ≡ none) × (r.applied ≡ vs) × (r.current_version ≡ latest_version ms)
unfolding finish_up
finish_up-inr ms (some v) vs r e = cc
finish_up-inr ms none vs r e = (refl, cc, cc)

-- What a success says of the migrations that were pending.
abbrev pub Succeeds : List Migration → List Migration → MigrateResult → Type 0
Succeeds ms todo r =
    (r.applied ≡ map (λ m. m.version) todo) × (r.current_version ≡ latest_version ms)

-- The database, some first migrations further; all of them where the answer is a success.
abbrev pub EndsAt :
    List Migration → List Migration → Db → Db × (MigrationError ⊎ MigrateResult) → ℕ → Type 0
EndsAt ms todo db out k =
    (out.0 ≡ advance (take k todo) db)
    × ((r : MigrateResult) → out.1 ≡ inr r → (take k todo ≡ todo) × Succeeds ms todo r)

migrate_pending-EndsAt :
    (runs : String → List String → Bool) (ms todo : List Migration) (db : Db)
    → (k : ℕ) × EndsAt ms todo db (migrate_pending runs ms todo db) k
unfolding migrate_pending
migrate_pending-EndsAt runs ms [] db = (0, (sym (advance-[] db), λ r e. (refl, (cc, cc))))
migrate_pending-EndsAt runs ms (m ∷ rest) db =
    let (k, (d, v, f)) = apply_pending-CameTo runs (m ∷ rest) db in
    (
      k,
      (
        d,
        λ r e.
            let (n, a, c) =
              finish_up-inr ms (apply_pending runs (m ∷ rest) db).failed
                (apply_pending runs (m ∷ rest) db).applied r e in
            (f n, (a ∙ v ∙ ap (map (λ x. x.version)) (f n), c)),
      ),
    )

migrate_checked-EndsAt :
    (runs : String → List String → Bool) (ms : List Migration) (o : Option ℕ) (db : Db)
    → (k : ℕ) × EndsAt ms (pending db.applied ms) db (migrate_checked runs ms o db) k
unfolding migrate_checked
migrate_checked-EndsAt runs ms (some v) db = (0, (sym (advance-[] db), λ r e. cc))
migrate_checked-EndsAt runs ms none db = migrate_pending-EndsAt runs ms (pending db.applied ms) db

pub migrate_loaded-EndsAt :
    (runs : String → List String → Bool) (ms : List Migration) (db : Db)
    → (k : ℕ) × EndsAt ms (pending db.applied ms) db (migrate_loaded runs ms db) k
unfolding migrate_loaded
migrate_loaded-EndsAt runs ms db = migrate_checked-EndsAt runs ms (find_changed db.applied ms) db

-- The two ends of `migrateUp`: an error, with some first of the pending migrations applied; or an
-- answer, with all of them applied.
abbrev pub Ended :
    List Migration → List Migration → Db → Db × (MigrationError ⊎ MigrateResult) → Type 0
Ended ms todo db out =
    ((e : MigrationError) × (k : ℕ) × (out.1 ≡ inl e) × (out.0 ≡ advance (take k todo) db))
    ⊎ ((r : MigrateResult) × (out.1 ≡ inr r) × (out.0 ≡ advance todo db) × Succeeds ms todo r)

answer-cases :
    (o : MigrationError ⊎ MigrateResult)
    → ((e : MigrationError) × (o ≡ inl e)) ⊎ ((r : MigrateResult) × (o ≡ inr r))
answer-cases (inl e) = inl (e, refl)
answer-cases (inr r) = inr (r, refl)

-- Once the migrations are loaded, `migrateUp` either answers, and then every migration that was
-- pending is applied, in order and each with its bookkeeping row, the answer names their versions
-- and the latest version; or it fails, and then the database is as it was but for some first
-- migrations of those, each whole with its row.
pub migrate_loaded-Ended :
    (runs : String → List String → Bool) (ms : List Migration) (db : Db)
    → Ended ms (pending db.applied ms) db (migrate_loaded runs ms db)
migrate_loaded-Ended runs ms db =
    let (k, (d, f)) = migrate_loaded-EndsAt runs ms db in
    elim (answer-cases (migrate_loaded runs ms db).1) [
      | inl (e, h) ↦ inl (e, k, h, d)
      | inr (r, h) ↦ let (t, c) = f r h in inr (r, h, d ∙ ap (λ x. advance x db) t, c)
    ]
