-- ===== src/Table/Update.antt =====
-- The laws of UPDATE: what it writes, and when its constraints let it through.
use pgjobq.Base.{
  ◌≡◌, refl, sym, subst, ◌⊎◌, inl, inr, Bool, true, false, List, [], ◌∷◌, map, arith, where_, all,
  if◌then◌else◌, In, In-map, In-where, where-In, map-In, all-In, In-all, Bool-cases,
}
use pgjobq.Types.{Job}
use pgjobq.Table.{ok, err, PgError, check_row, unique_rows, update, update_where}

-- What a statement that went through has done.
pub update-ok :
    (p : Job → Bool) (f : Job → Job) (t t' w : List Job)
    → update p f t ≡ ok (t', w)
    → (t' ≡ update_where p f t)
      × (w ≡ map f (where_ p t))
      × (all check_row w ≡ true)
      × (unique_rows t' ≡ true)
unfolding update
update-ok p f t t' w h = ground arith

-- With its constraints met it goes through.
pub update_passes :
    (p : Job → Bool) (f : Job → Job) (t : List Job)
    → all check_row (map f (where_ p t)) ≡ true
    → unique_rows (update_where p f t) ≡ true
    → update p f t ≡ ok (update_where p f t, map f (where_ p t))
unfolding update
update_passes p f t h k = rw (h, k)

pub update_rejected :
    (p : Job → Bool) (f : Job → Job) (t : List Job)
    → all check_row (map f (where_ p t)) ≡ false
    → update p f t ≡ err PgError.check_violation
unfolding update
update_rejected p f t h = rw h

-- A row of the new table was there, or is the image of one that was.
pub In-update_where :
    (p : Job → Bool) (f : Job → Job) (t : List Job) (k : Job)
    → In k (update_where p f t)
    → (In k t × (p k ≡ false)) ⊎ ((j : Job) × In j t × (p j ≡ true) × (k ≡ f j))
unfolding update_where
In-update_where p f [] k m = absurd m
In-update_where p f (j ∷ t) k (inl e) = elim (Bool-cases (p j)) [
  | inl y ↦ inr (j, inl refl, y, rw y at e)
  | inr n ↦ let same : k ≡ j = rw n at e in inl (inl same, rw same n)
]
In-update_where p f (j ∷ t) k (inr m) = elim (In-update_where p f t k m) [
  | inl (r, n) ↦ inl (inr r, n)
  | inr (i, r, y, e) ↦ inr (i, inr r, y, e)
]

pub update_where-In :
    (p : Job → Bool) (f : Job → Job) (t : List Job) (j : Job)
    → In j t
    → In (if p j then f j else j) (update_where p f t)
unfolding update_where
update_where-In p f [] j m = absurd m
update_where-In p f (k ∷ t) j (inl e) = inl (rw e)
update_where-In p f (k ∷ t) j (inr m) = inr (update_where-In p f t j m)

-- A statement that matches no row changes none.
pub update_where_none :
    (p : Job → Bool) (f : Job → Job) (t : List Job)
    → ((j : Job) → In j t → p j ≡ false)
    → (update_where p f t ≡ t) × (where_ p t ≡ [])
unfolding update_where where_
update_where_none p f [] h = (refl, refl)
update_where_none p f (j ∷ t) h =
    let (same, empty) = update_where_none p f t (λ k m. h k (inr m)) in
    (rw (h j (inl refl), same), rw (h j (inl refl), empty))

-- Every row that is written passes its checks.
pub written_checks :
    (p : Job → Bool) (f : Job → Job) (t : List Job)
    → ((j : Job) → In j t → p j ≡ true → check_row (f j) ≡ true)
    → all check_row (map f (where_ p t)) ≡ true
written_checks p f t h = In-all check_row _ written
  where
    written : (k : Job) → In k (map f (where_ p t)) → check_row k ≡ true
    written k m =
        let (j, r, e) = In-map f (where_ p t) k m in
        let (r', y) = In-where p t j r in subst (λ i. check_row i ≡ true) (sym e) (h j r' y)

-- A row that fails its checks takes the statement back.
pub written_fails :
    (p : Job → Bool) (f : Job → Job) (t : List Job) (j : Job)
    → In j t
    → p j ≡ true
    → check_row (f j) ≡ false
    → all check_row (map f (where_ p t)) ≡ false
written_fails p f t j m y n = elim (Bool-cases (all check_row (map f (where_ p t)))) [
  | inl passed ↦
      cc (n, all-In check_row _ (f j) passed (map-In f (where_ p t) j (where-In p t j m y)))
  | inr rejected ↦ rejected
]

-- All rows of the new table pass their checks.
pub update_where-checks :
    (p : Job → Bool) (f : Job → Job) (t : List Job)
    → all check_row t ≡ true
    → all check_row (map f (where_ p t)) ≡ true
    → all check_row (update_where p f t) ≡ true
update_where-checks p f t old new = In-all check_row _ row
  where
    row : (k : Job) → In k (update_where p f t) → check_row k ≡ true
    row k m = elim (In-update_where p f t k m) [
      | inl (r, _) ↦ all-In check_row t k old r
      | inr (j, r, y, e) ↦
          subst (λ i. check_row i ≡ true) (sym e)
            (all-In check_row _ (f j) new (map-In f (where_ p t) j (where-In p t j r y)))
    ]

-- What RETURNING gives is in the new table, and comes from a row that the statement matched.
pub In-written :
    (p : Job → Bool) (f : Job → Job) (t t' w : List Job) (k : Job)
    → update p f t ≡ ok (t', w)
    → In k w
    → (j : Job) × In j t × (p j ≡ true) × (k ≡ f j) × In k t'
In-written p f t t' w k h m =
    let (new, rows, _, _) = update-ok p f t t' w h in
    let (j, n, e) = In-map f (where_ p t) k (rw rows at m) in
    let (r, y) = In-where p t j n in
    let here : In (f j) (update_where p f t) = rw y at (update_where-In p f t j r) in
    (j, r, y, e, rw (new, e) here)
