-- ===== src/Engine/Retention/Passes.antt =====
-- Engine.Retention: the passes of a round and the finished jobs.
use pgjobq.Base.{
  ℕ, zero, suc, ◌<◌, ◌≡◌, refl, ap, ◌⊎◌, inl, inr, Bool, true, false, not, Option, none, some, List,
  [], ◌∷◌, ◌++◌, map, any, arith, ltb, ltb→lt, Yields, ◌==◌, length, where_, In, All, In-All,
  All-In, append-In, map-In, where-In, Bool-cases, if◌then◌else◌,
}
use pgjobq.Types.{Job, QueueConfig}
use pgjobq.Table.{among}
use pgjobq.Table.Valid.{IsValid, where-IsValid}
use pgjobq.Table.Deletion.{
  nobody, chosen, remaining, deleted, short_batch, wanted_drop, deleted_wanted,
}
use pgjobq.Sql.Retention.{
  ArchivedJob, prunable, victims, prune_terminal_jobs, archive_terminal_jobs, finished_order,
}
use pgjobq.Engine.Retention.{Archive, RetentionOptions, prune_once, archived, added, passes}

abbrev pub nobody_holds : ℕ → ℕ → Bool
nobody_holds n = nobody

abbrev oldest : Job → Job → Bool
oldest j k = finished_order j.finished_at k.finished_at

abbrev pub archived_at : ℕ → Job → ArchivedJob
archived_at now j = record { job = j; archived_at = now }

archived-covered :
    (month_of : ℕ → ℕ) (a : Archive) (now : ℕ) (t : List Job) (rows : List ArchivedJob)
    (moved : List Job)
    → any (λ m. m == month_of now) a.months ≡ true
    → archived month_of a now ((t, rows), moved) ≡ some ((t, record a { rows = rows }), moved)
archived-covered month_of a now t rows [] h = refl
archived-covered month_of a now t rows (j ∷ moved) h = rw h refl

-- A job is still there, or it was due; then it is in the archive, if there is one.
abbrev pub Kept : RetentionOptions → List QueueConfig → ℕ → Job → List Job × Archive → Type 0
Kept o cs now j (t, a) =
    In j t
    ⊎ ((prunable o.params cs now j ≡ true) × ((o.archive ≡ false) ⊎ In (archived_at now j) a.rows))

-- The round went through; no job is due, and none is lost.
abbrev pub Cleared :
    RetentionOptions → List QueueConfig → ℕ → List Job → Option ℕ × (List Job × Archive) → Type 0
Cleared o cs now t (n, s) =
    (n ≡ some (length (where_ (prunable o.params cs now) t)))
    × All (λ j. prunable o.params cs now j ≡ false) s.0
    × All (λ j. Kept o cs now j s) t

module _ (month_of : ℕ → ℕ) {next : ℕ} (o : RetentionOptions) (cs : List QueueConfig) (now : ℕ)
    (t : List Job) (a : Archive) (v : IsValid next t) where
  abbrev old : Job → Bool
  old = prunable o.params cs now

  abbrev left : List Job
  left = remaining oldest old o.params.limit t v

  abbrev gone : List Job
  gone = deleted oldest old o.params.limit t v

  left-IsValid : IsValid next left
  left-IsValid = where-IsValid next (λ j. not (among (chosen oldest old o.params.limit t v) j)) t v

  -- What a pass did to the archive, whose rows it left where they were.
  abbrev Passed : List ArchivedJob → Type 0
  Passed rows =
      (prune_once month_of o cs now nobody (t, a) ≡ some ((left, record a { rows = rows }), gone))
      × ((x : ArchivedJob) → In x a.rows → In x rows)
      × ((j : Job) → In j gone → (o.archive ≡ false) ⊎ In (archived_at now j) rows)

  pass-Passed :
      (o.archive ≡ false) ⊎ (any (λ m. m == month_of now) a.months ≡ true)
      → (rows : List ArchivedJob) × Passed rows
  unfolding prune_once prune_terminal_jobs archive_terminal_jobs victims
  pass-Passed covered = elim (Bool-cases o.archive) [
    | inr n ↦ (a.rows, (rw n refl, λ x m. m, λ j m. inl n))
    | inl y ↦
        let here : any (λ m. m == month_of now) a.months ≡ true = elim covered [
          | inl n ↦ cc (y, n)
          | inr h ↦ h
        ] in
        (
          a.rows ++ map (archived_at now) gone,
          (
            rw y (
                archived-covered month_of a now left (a.rows ++ map (archived_at now) gone) gone
                  here),
            λ x m. append-In a.rows _ x (inl m),
            λ j m. inr (append-In a.rows _ _ (inr (map-In (archived_at now) gone j m))),
          ),
        )
  ]

  -- Of the jobs, those that a pass leaves and those that it takes.
  pass-Kept :
      (rows : List ArchivedJob)
      → Passed rows
      → (j : Job) → In j t
      → Kept o cs now j (left, record a { rows = rows })
  pass-Kept rows (e, keep, put) j m =
      elim (Bool-cases (among (chosen oldest old o.params.limit t v) j)) [
        | inr n ↦ inl (where-In _ t j m (rw n refl))
        | inl y ↦
            inr (deleted_wanted oldest old o.params.limit t v j m y, put j (where-In _ t j m y))
      ]

abbrev pub MonthsCover : (ℕ → ℕ) → RetentionOptions → ℕ → Archive → Type 0
MonthsCover month_of o now a = (o.archive ≡ false) ⊎ (any (λ m. m == month_of now) a.months ≡ true)

abbrev pub LaterIn : Archive → Option ℕ × (List Job × Archive) → Type 0
LaterIn a (n, (t, b)) = (x : ArchivedJob) → In x a.rows → In x b.rows

if_dep :
    {A : Type 0} (P : A → Type 0) (b : Bool) {x y : A}
    → (b ≡ true → P x)
    → (b ≡ false → P y)
    → P (if b then x else y)
if_dep P true p q = p refl
if_dep P false p q = q refl

none_left :
    (p : Job → Bool) (t : List Job) → ((j : Job) → In j t → p j ≡ false) → length (where_ p t) ≡ 0
unfolding where_
none_left p [] h = refl
none_left p (j ∷ t) h = rw (h j (inl refl)) (none_left p t (λ k m. h k (inr m)))

-- What the later passes leave of a job that the pass before them left or archived.
later-Kept :
    (o : RetentionOptions) (cs : List QueueConfig) (now : ℕ) (j : Job) (t : List Job) (a : Archive)
    (s : List Job × Archive)
    → All (λ k. Kept o cs now k s) t
    → ((x : ArchivedJob) → In x a.rows → In x s.1.rows)
    → Kept o cs now j (t, a)
    → Kept o cs now j s
later-Kept o cs now j t a s all keep (inl m) = All-In (λ k. Kept o cs now k s) t j all m
later-Kept o cs now j t a s all keep (inr (y, inl n)) = inr (y, inl n)
later-Kept o cs now j t a s all keep (inr (y, inr m)) = inr (y, inr (keep (archived_at now j) m))

module _ (month_of : ℕ → ℕ) {next : ℕ} (o : RetentionOptions) (cs : List QueueConfig) (now : ℕ)
    (t : List Job) (a : Archive) (v : IsValid next t) (rows : List ArchivedJob)
    (passed : Passed month_of o cs now t a v rows) where
  abbrev rest : List Job × Archive
  rest = (left month_of o cs now t a v, record a { rows = rows })

  abbrev size : ℕ
  size = length (gone month_of o cs now t a v)

  last-Cleared :
      ltb size o.params.limit ≡ true
      → Cleared o cs now t (some size, rest) × LaterIn a (some size, rest)
  last-Cleared y =
      let calm = λ (j : Job) (m : In j rest.0).
        short_batch oldest (prunable o.params cs now) o.params.limit t v j (ltb→lt _ _ y) m in
      let drop = wanted_drop oldest (prunable o.params cs now) o.params.limit t v in
      let empty = none_left (prunable o.params cs now) rest.0 calm in
      (
        (
          ap some (omega (arith, drop, empty)),
          In-All _ _ calm,
          In-All _ t (pass-Kept month_of o cs now t a v rows passed),
        ),
        passed.1,
      )

  more-Cleared :
      (r : Option (Option ℕ × (List Job × Archive)))
      → Yields (λ q. Cleared o cs now rest.0 q × LaterIn rest.1 q) r
      → Yields (λ q. Cleared o cs now t q × LaterIn a q) (added month_of size r)
  more-Cleared none c = c
  more-Cleared (some (none, s)) (c, l) = cc
  more-Cleared (some (some m, s)) ((e, calm, kept), l) =
      let drop = wanted_drop oldest (prunable o.params cs now) o.params.limit t v in
      (
        (
          ap some (ground (arith, e, drop)),
          calm,
          In-All _ t (λ j i.
              later-Kept o cs now j rest.0 rest.1 s kept l
                (pass-Kept month_of o cs now t a v rows passed j i)),
        ),
        λ x i. l x (passed.1 x i),
      )

pub passes-Cleared :
    (month_of : ℕ → ℕ) {next : ℕ} (fuel : ℕ) (o : RetentionOptions) (cs : List QueueConfig)
    (now : ℕ) (t : List Job) (a : Archive)
    → IsValid next t
    → MonthsCover month_of o now a
    → 0 < o.params.limit
    → length (where_ (prunable o.params cs now) t) < fuel
    → Yields
        (λ r. Cleared o cs now t r × LaterIn a r)
        (passes month_of fuel o cs (λ n. now) nobody_holds (t, a))
unfolding passes
passes-Cleared month_of zero o cs now t a v c p h = absurd (omega (arith, h))
passes-Cleared month_of {next} (suc fuel) o cs now t a v c p h =
    let (rows, passed) = pass-Passed month_of o cs now t a v c in
    let drop = wanted_drop oldest (prunable o.params cs now) o.params.limit t v in
    let n = size month_of o cs now t a v rows passed in
    let s = rest month_of o cs now t a v rows passed in
    let later = passes month_of fuel o cs (λ n. now) nobody_holds s in
    rw passed.0 (
      if_dep (Yields (λ r. Cleared o cs now t r × LaterIn a r)) (ltb n o.params.limit)
        (λ y. last-Cleared month_of o cs now t a v rows passed y)
        (λ f. more-Cleared month_of o cs now t a v rows passed later (
          passes-Cleared month_of fuel o cs now s.0 s.1 (left-IsValid month_of o cs now t a v) c p
            (ground (arith, f, drop, h, p)))))
