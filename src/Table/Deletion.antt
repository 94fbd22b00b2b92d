-- ===== src/Table/Deletion.antt =====
-- Rows deleted in batches, each chosen by a WHERE, an ORDER BY and a LIMIT, where nobody holds rows.
use pgjobq.Base.{
  ℕ, ◌+◌, ◌≤◌, ◌<◌, ◌≡◌, refl, sym, ◌∙◌, ap, subst, inl, inr, Bool, true, false, not, List, [], ◌∷◌,
  arith, length, where_, order_by, take, take_short, In, In-where, where-In, In-take, In-order_by,
  order_by-In, length-take-le, Bool-cases,
}
use pgjobq.Types.{Job}
use pgjobq.Table.{among}
use pgjobq.Table.Ids.{Distinct, where-Distinct}
use pgjobq.Table.Valid.{IsValid}
use pgjobq.Table.Selection.{
  order_by-Distinct, take-Distinct, length-where_among, among-In, among_selected,
}

abbrev pub nobody : ℕ → Bool
nobody id = false

keep_all : (xs : List Job) → where_ (λ (j : Job). not (nobody j.id)) xs ≡ xs
unfolding where_
keep_all [] = refl
keep_all (x ∷ xs) = ap (◌∷◌ x) (keep_all xs)

split_count :
    (p q : Job → Bool) (t : List Job)
    → ((j : Job) → In j t → q j ≡ true → p j ≡ true)
    → length (where_ p (where_ (λ j. not (q j)) t)) + length (where_ q t) ≡ length (where_ p t)
unfolding where_
split_count p q [] h = omega arith
split_count p q (j ∷ t) h = ground (arith, h j (inl refl), split_count p q t (λ k m. h k (inr m)))

module _ {next : ℕ} (le : Job → Job → Bool) (p : Job → Bool) (size : ℕ) (t : List Job)
    (v : IsValid next t) where
  abbrev pub sorted : List Job
  sorted = order_by le (where_ p t)

  abbrev pub chosen : List Job
  chosen = take size (where_ (λ j. not (nobody j.id)) sorted)

  abbrev pub remaining : List Job
  remaining = where_ (λ k. not (among chosen k)) t

  abbrev pub deleted : List Job
  deleted = where_ (among chosen) t

  chosen-eq : chosen ≡ take size sorted
  chosen-eq = ap (take size) (keep_all sorted)

  pub In-chosen : (j : Job) → In j chosen → In j t × (p j ≡ true)
  In-chosen j m = In-where p t j (In-order_by _ _ j (In-take size sorted j (rw chosen-eq at m)))

  chosen-Distinct : Distinct chosen
  chosen-Distinct =
      subst Distinct (sym chosen-eq)
        (take-Distinct size sorted (order_by-Distinct _ _ (where-Distinct p t v.ids)))

  length-deleted : length deleted ≡ length chosen
  length-deleted = length-where_among chosen t v.ids chosen-Distinct (λ k m. (In-chosen k m).0)

  pub length-deleted-le : length deleted ≤ size
  length-deleted-le =
      omega (
        arith,
        length-deleted,
        ap (λ (l : List Job). length l) chosen-eq,
        length-take-le size sorted,
      )

  pub deleted_wanted : (j : Job) → In j t → among chosen j ≡ true → p j ≡ true
  deleted_wanted j m y =
      (In-chosen j (among_selected chosen t j v.ids (λ k r. (In-chosen k r).0) m y)).1

  -- A batch that is not full took every row that is asked for.
  pub short_batch : (j : Job) → length deleted < size → In j remaining → p j ≡ false
  short_batch j h m = elim (Bool-cases (p j)) [
    | inr n ↦ n
    | inl y ↦
        let (r, e) = In-where (λ k. not (among chosen k)) t j m in
        let whole =
          take_short size sorted
            (omega (arith, h, length-deleted, ap (λ (l : List Job). length l) chosen-eq)) in
        let here : In j chosen =
          subst (In j) (sym (chosen-eq ∙ whole)) (order_by-In _ _ j (where-In p t j r y)) in
        absurd (cc (among-In chosen j here, e))
  ]

  pub kept_row : (j : Job) → In j t → p j ≡ false → In j remaining
  kept_row j m n = elim (Bool-cases (among chosen j)) [
    | inl y ↦ absurd (cc (n, deleted_wanted j m y))
    | inr x ↦ where-In _ t j m (rw x refl)
  ]

  -- What is left of the rows asked for.
  pub wanted_drop : length (where_ p remaining) + length deleted ≡ length (where_ p t)
  wanted_drop = split_count p (among chosen) t deleted_wanted
