-- ===== src/Engine/Retention/Rounds.antt =====
-- Engine.Retention: a round, with the partitions that it makes first.
use pgjobq.Base.{
  ◌||◌, ℕ, ◌+◌, ◌<◌, ◌≡◌, ◌∙◌, ◌⊎◌, inl, inr, Bool, true, false, List, [], ◌∷◌, ◌++◌, any, arith,
  ◌==◌, length, where_, Bool-cases, Yields, Option, none, some, if◌then◌else◌,
}
use pgjobq.Types.{Job, QueueConfig}
use pgjobq.Table.Valid.{IsValid}
use pgjobq.Sql.Retention.{prunable}
use pgjobq.Engine.Retention.{
  Archive, RetentionOptions, create_archive_partition, ensure_partitions, round,
}
use pgjobq.Engine.Retention.Passes.{nobody_holds, Cleared, MonthsCover, passes-Cleared}

any-append : (p : ℕ → Bool) (xs : List ℕ) (y : ℕ) → any p (xs ++ y ∷ []) ≡ (any p xs || p y)
unfolding any
any-append p [] y = ground arith
any-append p (x ∷ xs) y = ground (arith, any-append p xs y)

create-has :
    (m : ℕ) (months : List ℕ) → any (λ x. x == m) (create_archive_partition m months) ≡ true
unfolding create_archive_partition
create-has m months = elim (Bool-cases (any (λ x. x == m) months)) [
  | inl y ↦ rw y y
  | inr n ↦ rw n (any-append (λ x. x == m) months m ∙ ground (arith, n))
]

create-keeps :
    (m k : ℕ) (months : List ℕ)
    → any (λ x. x == k) months ≡ true
    → any (λ x. x == k) (create_archive_partition m months) ≡ true
unfolding create_archive_partition
create-keeps m k months h = elim (Bool-cases (any (λ x. x == m) months)) [
  | inl y ↦ rw y h
  | inr n ↦ rw n (any-append (λ x. x == k) months m ∙ rw h (ground arith))
]

ensured :
    (m k : ℕ) (months : List ℕ)
    → (k ≡ m) ⊎ (k ≡ m + 1)
    → any (λ x. x == k) (ensure_partitions m months) ≡ true
unfolding ensure_partitions
ensured m k months (inl e) = rw e (create-keeps (m + 1) m _ (create-has m months))
ensured m k months (inr e) = rw e (create-has (m + 1) (create_archive_partition m months))

-- On a valid table where nobody holds rows, at one time of the database, which is in the month of the
-- process's clock or in the next one, with batches of at least one and as many passes allowed as there are
-- jobs due and one more: a round ends, at a pass that is not full, with no error, and counts the jobs that
-- were due; none is left; and every job of the table
-- is still there or was due, and then, if jobs are archived, is in the archive with that time.
pub round-Cleared :
    (month_of : ℕ → ℕ) {next : ℕ} (fuel : ℕ) (o : RetentionOptions) (cs : List QueueConfig)
    (process_now now : ℕ) (t : List Job) (a : Archive)
    → IsValid next t
    → (month_of now ≡ month_of process_now) ⊎ (month_of now ≡ month_of process_now + 1)
    → 0 < o.params.limit
    → length (where_ (prunable o.params cs now) t) < fuel
    → Yields
        (Cleared o cs now t)
        (round month_of fuel o cs process_now (λ n. now) nobody_holds (t, a))
unfolding round
round-Cleared month_of fuel o cs process_now now t a v near p h =
    ended (Cleared o cs now t) _ _
      (passes-Cleared month_of fuel o cs now t _ v (covered (Bool-cases o.archive)) p h)
  where
    ended :
        (P Q : Option ℕ × (List Job × Archive) → Type 0)
        (r : Option (Option ℕ × (List Job × Archive)))
        → Yields (λ q. P q × Q q) r
        → Yields P r
    ended P Q none y = y
    ended P Q (some q) y = y.0

    covered :
        (o.archive ≡ true) ⊎ (o.archive ≡ false)
        → MonthsCover month_of o now (
            if o.archive
            then record a { months = ensure_partitions (month_of process_now) a.months }
            else a)
    covered (inr n) = inl n
    covered (inl y) = rw y (inr (ensured (month_of process_now) (month_of now) a.months near))
