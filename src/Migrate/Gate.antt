-- ===== src/Migrate/Gate.antt =====
-- Migrate: `migrateUp` against the startup gate of `assertSchemaCurrent`.
use pgjobq.Base.{
  ◌≤◌, ◌≡◌, refl, sym, ◌∙◌, ap, ◌⊎◌, inl, inr, Bool, not, List, [], ◌∷◌, arith, leb, leb→le, ◌==◌,
  ==_iff, In, String, map, order_by, where-In, In-where, In-map, map-In, In-append, append-In,
  order_by-In, Option-cases, subst, Bool-cases, In-any,
}
use pgjobq.Base.Sorted.{IsSorted, order_by-IsSorted}
use pgjobq.Migrate.{
  Migration, AppliedMigration, MigrationError, duplicate_version, MigrateResult, Db, by_version,
  latest_version, schema_version, is_applied, bookkeeping, pending, load_migrations, find_duplicate,
  migrate_loaded, migrate_from, migrate_up, assert_from, assert_schema_current,
}
use pgjobq.Migrate.Applying.{advance, migrate_loaded-EndsAt}

version-le-schema :
    (rows : List AppliedMigration) (a : AppliedMigration)
    → In a rows
    → a.version ≤ schema_version rows
unfolding schema_version
version-le-schema [] a m = absurd m
version-le-schema (b ∷ rows) a (inl e) = let v = ap (λ x. x.version) e in omega (arith, v)
version-le-schema (b ∷ rows) a (inr m) = omega (arith, version-le-schema rows a m)

schema_version-attained :
    (rows : List AppliedMigration)
    → (schema_version rows ≡ 0)
      ⊎ ((a : AppliedMigration) × In a rows × (a.version ≡ schema_version rows))
unfolding schema_version
schema_version-attained [] = inl refl
schema_version-attained (b ∷ rows) = elim (schema_version-attained rows) [
  | inl e ↦ inr (b, inl refl, omega (arith, e))
  | inr (a, i, e) ↦ elim (Bool-cases (leb b.version a.version)) [
    | inl h ↦ inr (a, inr i, omega (arith, e, leb→le b.version a.version h))
    | inr h ↦ inr (b, inl refl, ground (arith, e, h))
  ]
]

version-le-latest :
    (ms : List Migration) (m : Migration)
    → IsSorted by_version ms
    → In m ms
    → m.version ≤ latest_version ms
unfolding latest_version by_version
version-le-latest [] m s i = absurd i
version-le-latest (n ∷ []) m s (inl e) = let v = ap (λ x. x.version) e in omega (arith, v)
version-le-latest (n ∷ []) m s (inr i) = absurd i
version-le-latest (n ∷ k ∷ ms) m s (inr i) = version-le-latest (k ∷ ms) m s.1 i
version-le-latest (n ∷ k ∷ ms) m s (inl e) =
    let v = ap (λ x. x.version) e in
    let h = leb→le n.version k.version (s.0 k (inl refl)) in
    omega (arith, v, h, version-le-latest (k ∷ ms) k s.1 (inl refl))

latest_version-attained :
    (ms : List Migration)
    → (latest_version ms ≡ 0) ⊎ ((m : Migration) × In m ms × (m.version ≡ latest_version ms))
unfolding latest_version
latest_version-attained [] = inl refl
latest_version-attained (m ∷ []) = inr (m, inl refl, refl)
latest_version-attained (m ∷ n ∷ ms) = elim (latest_version-attained (n ∷ ms)) [
  | inl e ↦ inl e
  | inr (k, i, e) ↦ inr (k, inr i, e)
]

-- Every version that is recorded is one of these migrations, and the other way round.
abbrev pub Known : List AppliedMigration → List Migration → Type 0
Known rows ms =
    (a : AppliedMigration) → In a rows → (m : Migration) × In m ms × (m.version ≡ a.version)

abbrev pub Recorded : List AppliedMigration → List Migration → Type 0
Recorded rows ms =
    (m : Migration) → In m ms → (a : AppliedMigration) × In a rows × (a.version ≡ m.version)

latest-le-schema :
    (rows : List AppliedMigration) (ms : List Migration)
    → Recorded rows ms
    → latest_version ms ≤ schema_version rows
latest-le-schema rows ms rec = elim (latest_version-attained ms) [
  | inl e ↦ omega (arith, e)
  | inr (m, i, e) ↦ let (a, j, f) = rec m i in omega (arith, e, f, version-le-schema rows a j)
]

schema-le-latest :
    (rows : List AppliedMigration) (ms : List Migration)
    → IsSorted by_version ms
    → Known rows ms
    → schema_version rows ≤ latest_version ms
schema-le-latest rows ms s kn = elim (schema_version-attained rows) [
  | inl e ↦ omega (arith, e)
  | inr (a, i, e) ↦ let (m, j, f) = kn a i in omega (arith, e, f, version-le-latest ms m s j)
]

advance-Known :
    (ms : List Migration) (db : Db)
    → Known db.applied ms
    → Known (advance (pending db.applied ms) db).applied ms
unfolding advance pending bookkeeping
advance-Known ms db kn a i =
    elim (In-append db.applied (map bookkeeping (pending db.applied ms)) a i) [
      | inl j ↦ kn a j
      | inr j ↦
          let (m, r, e) = In-map bookkeeping (pending db.applied ms) a j in
          let (q, u) = In-where (λ x. not (is_applied db.applied x)) ms m r in
          (m, q, ap (λ x. x.version) (sym e))
    ]

advance-Recorded :
    (ms : List Migration) (db : Db) → Recorded (advance (pending db.applied ms) db).applied ms
unfolding advance pending bookkeeping is_applied
advance-Recorded ms db m i = elim (Bool-cases (is_applied db.applied m)) [
  | inl e ↦
      let (a, j, h) = In-any (λ x. x.version == m.version) db.applied e in
      (
        a,
        append-In db.applied (map bookkeeping (pending db.applied ms)) a (inl j),
        (==_iff a.version m.version).0 h,
      )
  | inr e ↦
      let q = where-In (λ x. not (is_applied db.applied x)) ms m i (rw e refl) in
      (
        bookkeeping m,
        append-In db.applied (map bookkeeping (pending db.applied ms)) (bookkeeping m)
            (inr (map-In bookkeeping (pending db.applied ms) m q)),
        refl,
      )
]

assert_from-passes :
    (ms : List Migration) (db : Db)
    → schema_version db.applied ≡ latest_version ms
    → assert_from (inr ms) db ≡ inr (latest_version ms)
unfolding assert_from
assert_from-passes ms db e =
    rw ((==_iff (schema_version db.applied) (latest_version ms)).1 e, e) refl

migrate_loaded-opens :
    (runs : String → List String → Bool) (ms : List Migration) (db : Db) (r : MigrateResult)
    → IsSorted by_version ms
    → Known db.applied ms
    → (migrate_loaded runs ms db).1 ≡ inr r
    → assert_from (inr ms) (migrate_loaded runs ms db).0 ≡ inr r.current_version
migrate_loaded-opens runs ms db r s kn h =
    let (k, (d, f)) = migrate_loaded-EndsAt runs ms db in
    let (t, (v, c)) = f r h in
    let e = d ∙ ap (λ x. advance x db) t in
    let rows = (advance (pending db.applied ms) db).applied in
    let lo = latest-le-schema rows ms (advance-Recorded ms db) in
    let hi = schema-le-latest rows ms s (advance-Known ms db kn) in
    let q = ap (λ x. schema_version x.applied) e in
    let same : schema_version rows ≡ latest_version ms = omega (arith, lo, hi) in
    assert_from-passes ms (migrate_loaded runs ms db).0 (q ∙ same) ∙ ap inr (sym c)

by_version-sorts : (files : List Migration) → IsSorted by_version (order_by by_version files)
unfolding by_version
by_version-sorts files =
    order_by-IsSorted by_version (λ x y h. ground (arith, h)) (λ x y z g h. ground (arith, g, h))
      files

load_migrations-cases :
    (files : List Migration)
    → ((e : MigrationError) × (load_migrations files ≡ inl e))
      ⊎ (load_migrations files ≡ inr (order_by by_version files))
unfolding load_migrations
load_migrations-cases files = elim (Option-cases (find_duplicate [] files)) [
  | inl e ↦ inr (rw (e, load_migrations) refl)
  | inr (v, e) ↦ inl (duplicate_version v, rw (e, load_migrations) refl)
]

order_by-Known :
    (rows : List AppliedMigration) (files : List Migration)
    → Known rows files
    → Known rows (order_by by_version files)
order_by-Known rows files kn a i =
    let (m, j, e) = kn a i in (m, order_by-In by_version files m j, e)

inl_not_inr :
    (e : MigrationError) (r : MigrateResult)
    → ◌≡◌ {A = MigrationError ⊎ MigrateResult} (inl e) (inr r)
    → ⊥
inl_not_inr e r h = cc

-- After `migrateUp` has succeeded on a database whose recorded versions are all among the files,
-- the startup gate of `assertSchemaCurrent` lets the service through, at the version it answered.
pub migrate_up_opens :
    (runs : String → List String → Bool) (files : List Migration) (db : Db) (r : MigrateResult)
    → Known db.applied files
    → (migrate_up runs files db).1 ≡ inr r
    → assert_schema_current files (migrate_up runs files db).0 ≡ inr r.current_version
unfolding migrate_up migrate_from assert_schema_current
migrate_up_opens runs files db r kn h = elim (load_migrations-cases files) [
  | inl (e, l) ↦ absurd (inl_not_inr e r (sym (ap (λ o. (migrate_from runs o db).1) l) ∙ h))
  | inr l ↦
      subst
        (λ o.
          (migrate_from runs o db).1 ≡ inr r
          → assert_from o (migrate_from runs o db).0 ≡ inr r.current_version)
        (sym l)
        (migrate_loaded-opens runs (order_by by_version files) db r (by_version-sorts files)
          (order_by-Known db.applied files kn))
        h
]
