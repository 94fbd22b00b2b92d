-- ===== src/Server/Routes/Paging.antt =====
-- Server.Routes: the pages of a listing, by their cursors.
use pgjobq.Base.{
  ℕ, zero, suc, min, max, length-append, length-take-le, and_right, In-order_by, ◌≤◌, ◌<◌, ◌≡◌, ◌≢◌,
  refl, ap, ◌∙◌, subst, inl, inr, Bool, true, false, ◌&&◌, Option, none, some, List, [], ◌∷◌, ◌++◌,
  arith, ltb, leb, ◌==◌, length, take, where_, order_by, In, In-where, In-take, Bool-cases,
  Option-cases, take_short,
}
use pgjobq.Base.Sorted.{IsSorted, Total, Transitive, order_by-IsSorted, where-order_by}
use pgjobq.Types.{Job}
use pgjobq.Table.Ids.{Distinct, where-Distinct}
use pgjobq.Table.Selection.{order_by-Distinct}
use pgjobq.Sql.Listing.{ListJobsParams, unset_or, listed, list_jobs}
use pgjobq.Client.Admin.{list_page, clamp_limit}
use pgjobq.Server.Routes.{last_id, next_cursor}

abbrev pub newest_first : Job → Job → Bool
newest_first j k = leb k.id j.id

abbrev Descends : List Job → Type 0
Descends [] = Unit {0}
Descends (j ∷ t) = ((k : Job) → In k t → k.id < j.id) × Descends t

sorted-Descends : (t : List Job) → IsSorted newest_first t → Distinct t → Descends t
sorted-Descends [] s d = tt
sorted-Descends (j ∷ t) s d = (λ k m. below k (s.0 k m) (d.0 k m), sorted-Descends t s.1 d.1)
  where
    below : (k : Job) → leb k.id j.id ≡ true → j.id ≢ k.id → k.id < j.id
    below k h n = ground (arith, h, n)

-- The rows before a cursor.
abbrev older : ℕ → Job → Bool
older i j = ltb j.id i

where_all : (p : Job → Bool) (t : List Job) → ((k : Job) → In k t → p k ≡ true) → where_ p t ≡ t
unfolding where_
where_all p [] h = refl
where_all p (j ∷ t) h = rw (h j (inl refl)) (ap (◌∷◌ j) (where_all p t (λ k m. h k (inr m))))

where_same : (p q : Job → Bool) (t : List Job) → ((k : Job) → p k ≡ q k) → where_ p t ≡ where_ q t
unfolding where_
where_same p q [] h = refl
where_same p q (j ∷ t) h = rw (h j, where_same p q t h) refl

where-where : (p q : Job → Bool) (t : List Job) → where_ p (where_ q t) ≡ where_ (λ j. q j && p j) t
unfolding where_
where-where p q [] = refl
where-where p q (j ∷ t) = ground (arith, where-where p q t)

last_id-In : (t : List Job) (c : ℕ) → last_id t ≡ some c → (k : Job) × In k t × (k.id ≡ c)
unfolding last_id
last_id-In [] c h = cc
last_id-In (j ∷ []) c h = (j, inl refl, cc)
last_id-In (j ∷ k ∷ t) c h = let (i, m, e) = last_id-In (k ∷ t) c h in (i, inr m, e)

-- What comes before the last row of a first part of a descending list is the rest of the list.
rest_older :
    (n : ℕ) (t : List Job) (c : ℕ)
    → Descends t
    → last_id (take n t) ≡ some c
    → take n t ++ where_ (older c) t ≡ t
unfolding last_id where_
rest_older zero t c d h = cc
rest_older (suc n) [] c d h = cc
rest_older (suc zero) (j ∷ t) c d h =
    let e : c ≡ j.id = cc in
    let out : older c j ≡ false = ground (arith, e) in
    rw out (ap (◌∷◌ j) (where_all (older c) t (λ k m. ground (arith, d.0 k m, e))))
rest_older (suc (suc n)) (j ∷ []) c d h =
    let e : c ≡ j.id = cc in let out : older c j ≡ false = ground (arith, e) in rw out refl
rest_older (suc (suc n)) (j ∷ k ∷ t) c d h =
    let (i, m, e) = last_id-In (take (suc n) (k ∷ t)) c h in
    let out : older c j ≡ false = ground (arith, d.0 i (In-take (suc n) (k ∷ t) i m), e) in
    rw out (ap (◌∷◌ j) (rest_older (suc n) (k ∷ t) c d.1 h))

-- What a caller collects who asks for a page, and then for the page at its cursor, until there is none:
-- at most that many pages.
unfoldable pub walk : ℕ → ListJobsParams → List Job → List Job
walk zero p t = []
walk (suc fuel) p t = elim (next_cursor (list_page p t) p.limit) [
  | none ↦ list_page p t
  | some c ↦ list_page p t ++ walk fuel (record p { before_id = some c }) t
]

-- All rows that the filters admit, the newest first.
abbrev pub whole : ListJobsParams → List Job → List Job
whole p t = order_by newest_first (where_ (listed p) t)

list_page-whole :
    (p : ListJobsParams) (t : List Job)
    → 1 ≤ p.limit
    → p.limit ≤ 200
    → list_page p t ≡ take p.limit (whole p t)
unfolding list_page clamp_limit list_jobs
list_page-whole p t a b =
    let same : min (max 1 p.limit) 200 ≡ p.limit = omega (arith, a, b) in
    ap (λ n. take n (whole p t)) same

walk-none :
    (fuel : ℕ) (p : ListJobsParams) (t : List Job)
    → next_cursor (list_page p t) p.limit ≡ none
    → walk (suc fuel) p t ≡ list_page p t
unfolding walk
walk-none fuel p t e = rw (e, walk) refl

walk-some :
    (fuel : ℕ) (p : ListJobsParams) (t : List Job) (c : ℕ)
    → next_cursor (list_page p t) p.limit ≡ some c
    → walk (suc fuel) p t ≡ list_page p t ++ walk fuel (record p { before_id = some c }) t
unfolding walk
walk-some fuel p t c e = rw (e, walk) refl

and_absorb : (b x o : Bool) → (o ≡ true → x ≡ true) → ((b && x) && o) ≡ (b && o)
and_absorb b x true h = rw (h refl) (ground arith)
and_absorb b x false h = ground arith

before_down :
    (b : Option ℕ) (c i : ℕ)
    → unset_or b (λ x. ltb c x) ≡ true
    → ltb i c ≡ true
    → unset_or b (λ x. ltb i x) ≡ true
before_down none c i h l = refl
before_down (some x) c i h l = ground (arith, h, l)

listed-older :
    (p : ListJobsParams) (c : ℕ) (j : Job)
    → unset_or p.before_id (λ i. ltb c i) ≡ true
    → (listed p j && older c j) ≡ listed (record p { before_id = some c }) j
unfolding listed
listed-older p c j h = and_absorb _ _ (older c j) (before_down p.before_id c j.id h)

listed-before :
    (p : ListJobsParams) (j : Job)
    → listed p j ≡ true
    → unset_or p.before_id (λ i. ltb j.id i) ≡ true
unfolding listed
listed-before p j h = and_right _ _ h

newest-Total : Total newest_first
newest-Total x y h = ground (arith, h)

newest-Transitive : Transitive newest_first
newest-Transitive x y z g h = ground (arith, g, h)

whole-older :
    (p : ListJobsParams) (t : List Job) (c : ℕ)
    → unset_or p.before_id (λ i. ltb c i) ≡ true
    → where_ (older c) (whole p t) ≡ whole (record p { before_id = some c }) t
whole-older p t c h =
    where-order_by newest_first newest-Total newest-Transitive (older c) (where_ (listed p) t)
    ∙ ap (order_by newest_first)
        (where-where (older c) (listed p) t ∙ where_same _ _ t (λ j. listed-older p c j h))

whole-Descends : (p : ListJobsParams) (t : List Job) → Distinct t → Descends (whole p t)
whole-Descends p t d =
    sorted-Descends (whole p t)
      (order_by-IsSorted newest_first newest-Total newest-Transitive (where_ (listed p) t))
      (order_by-Distinct newest_first (where_ (listed p) t) (where-Distinct (listed p) t d))

last_id-none : (t : List Job) → last_id t ≡ none → t ≡ []
unfolding last_id
last_id-none [] h = refl
last_id-none (j ∷ []) h = cc
last_id-none (j ∷ k ∷ t) h = absurd (cc (last_id-none (k ∷ t) h))

cursor-before :
    (p : ListJobsParams) (t : List Job) (n c : ℕ)
    → last_id (take n (whole p t)) ≡ some c
    → unset_or p.before_id (λ i. ltb c i) ≡ true
cursor-before p t n c e =
    let (k, m, same) = last_id-In (take n (whole p t)) c e in
    let here = In-order_by newest_first (where_ (listed p) t) k (In-take n (whole p t) k m) in
    subst (λ x. unset_or p.before_id (λ i. ltb x i) ≡ true) same
      (listed-before p k (In-where (listed p) t k here).1)

-- A caller who follows the cursors of a listing gets, page by page, all the rows that the filters admit,
-- each once and the newest first, as if in one answer: for page sizes from 1 to 200, a table of
-- distinct ids that stays as it is, and more pages than there are such rows.
pub walk-whole :
    (fuel : ℕ) (p : ListJobsParams) (t : List Job)
    → Distinct t
    → 1 ≤ p.limit
    → p.limit ≤ 200
    → length (whole p t) < fuel
    → walk fuel p t ≡ whole p t
unfolding next_cursor
walk-whole zero p t d a b h = absurd (omega (arith, h))
walk-whole (suc fuel) p t d a b h =
    let page = list_page-whole p t a b in
    elim (Bool-cases (length (take p.limit (whole p t)) == p.limit)) [
      | inr n ↦
          walk-none fuel p t (rw page (rw (n, next_cursor) refl))
          ∙ page
          ∙ take_short p.limit (whole p t) (ground (arith, n, length-take-le p.limit (whole p t)))
      | inl y ↦ elim (Option-cases (last_id (take p.limit (whole p t)))) [
        | inl none_left ↦
            let none_there =
              ap (λ (l : List Job). length l) (last_id-none (take p.limit (whole p t)) none_left) in
            absurd (ground (arith, y, none_there, a))
        | inr (c, e) ↦
            let p' : ListJobsParams = record p { before_id = some c } in
            let split = rest_older p.limit (whole p t) c (whole-Descends p t d) e in
            let later = whole-older p t c (cursor-before p t p.limit c e) in
            let size = ap (λ (l : List Job). length l) split in
            let sizes =
              length-append {0} (take p.limit (whole p t)) (where_ (older c) (whole p t)) in
            let shorter = ap (λ (l : List Job). length l) later in
            let ih = walk-whole fuel p' t d a b (ground (arith, y, size, sizes, shorter, h, a)) in
            walk-some fuel p t c (rw page (rw (y, next_cursor) e)) ∙ rw (page, ih, ← later) split
      ]
    ]
