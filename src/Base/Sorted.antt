-- ===== src/Base/Sorted.antt =====
-- What ORDER BY and LIMIT give: a sorted list, and its best items.
use pgjobq.Base.{
  ℕ, zero, suc, ◌≡◌, refl, ◌⊎◌, inl, inr, Bool, true, false, List, [], ◌∷◌, arith, take, where_,
  insert_by, order_by, In, In-insert_by, In-where, Bool-cases, length, subst, sym, ◌∙◌,
  if◌then◌else◌,
}

module _ {A : Type 0} (le : A → A → Bool) where
  abbrev pub IsSorted : List A → Type 0
  IsSorted [] = Unit {0}
  IsSorted (x ∷ xs) = ((y : A) → In y xs → le x y ≡ true) × IsSorted xs

  abbrev pub Total : Type 0
  Total = (x y : A) → le x y ≡ false → le y x ≡ true

  abbrev pub Transitive : Type 0
  Transitive = (x y z : A) → le x y ≡ true → le y z ≡ true → le x z ≡ true

  insert_by-IsSorted :
      Total → Transitive → (x : A) (ys : List A) → IsSorted ys → IsSorted (insert_by le x ys)
  unfolding insert_by
  insert_by-IsSorted tot tr x [] s = (λ y m. absurd m, tt)
  insert_by-IsSorted tot tr x (y ∷ ys) s = elim (Bool-cases (le x y)) [
    | inl e ↦ rw e (below e, s)
    | inr e ↦ rw e (above e, insert_by-IsSorted tot tr x ys s.1)
  ]
    where
      below : le x y ≡ true → (z : A) → In z (y ∷ ys) → le x z ≡ true
      below e z (inl q) = subst (λ w. le x w ≡ true) (sym q) e
      below e z (inr m) = tr x y z e (s.0 z m)

      above : le x y ≡ false → (z : A) → In z (insert_by le x ys) → le y z ≡ true
      above e z m = elim (In-insert_by le x ys z m) [
        | inl q ↦ subst (λ w. le y w ≡ true) (sym q) (tot x y e)
        | inr r ↦ s.0 z r
      ]

  pub order_by-IsSorted : Total → Transitive → (xs : List A) → IsSorted (order_by le xs)
  unfolding order_by
  order_by-IsSorted tot tr [] = tt
  order_by-IsSorted tot tr (x ∷ xs) =
      insert_by-IsSorted tot tr x (order_by le xs) (order_by-IsSorted tot tr xs)

  pub where-IsSorted : (p : A → Bool) (xs : List A) → IsSorted xs → IsSorted (where_ p xs)
  unfolding where_
  where-IsSorted p [] s = tt
  where-IsSorted p (x ∷ xs) s = elim (Bool-cases (p x)) [
    | inl e ↦ rw e (λ y m. s.0 y (In-where p xs y m).0, where-IsSorted p xs s.1)
    | inr e ↦ rw e (where-IsSorted p xs s.1)
  ]

  -- Of a sorted list, an item either is among the first n, or there are n before it.
  pub take_best :
      (n : ℕ) (xs : List A) (y : A)
      → IsSorted xs
      → In y xs
      → In y (take n xs) ⊎ ((length (take n xs) ≡ n) × ((x : A) → In x (take n xs) → le x y ≡ true))
  take_best zero xs y s m = inr (refl, λ x e. absurd e)
  take_best (suc n) [] y s m = absurd m
  take_best (suc n) (x ∷ xs) y s (inl e) = inl (inl e)
  take_best (suc n) (x ∷ xs) y s (inr m) = elim (take_best n xs y s.1 m) [
    | inl r ↦ inl (inr r)
    | inr r ↦ inr (omega (arith, r.0), first r.1)
  ]
    where
      first :
          ((z : A) → In z (take n xs) → le z y ≡ true)
          → (z : A) → In z (x ∷ take n xs)
          → le z y ≡ true
      first h z (inl q) = subst (λ w. le w y ≡ true) (sym q) (s.0 y m)
      first h z (inr r) = h z r

  insert_by_first :
      (x : A) (ys : List A) → ((y : A) → In y ys → le x y ≡ true) → insert_by le x ys ≡ x ∷ ys
  unfolding insert_by
  insert_by_first x [] h = refl
  insert_by_first x (y ∷ ys) h = rw (h y (inl refl)) refl

  -- A filter goes past the insertion into a sorted list, and so past the sort.
  where-insert_by :
      Transitive
      → (q : A → Bool) (x : A) (ys : List A) → IsSorted ys
      → where_ q (insert_by le x ys) ≡ (if q x then insert_by le x (where_ q ys) else where_ q ys)
  unfolding where_ insert_by
  where-insert_by tr q x [] s = refl
  where-insert_by tr q x (y ∷ ys) s = elim (Bool-cases (le x y)) [
    | inr n ↦ ground (arith, n, where-insert_by tr q x ys s.1)
    | inl l ↦ elim (Bool-cases (q y)) [
      | inl k ↦ ground (arith, l, k)
      | inr k ↦ ground (
        arith,
        l,
        k,
        insert_by_first x (where_ q ys) (λ z m. tr x y z l (s.0 z (In-where q ys z m).0)),
      )
    ]
  ]

  pub where-order_by :
      Total
      → Transitive
      → (q : A → Bool) (xs : List A) → where_ q (order_by le xs) ≡ order_by le (where_ q xs)
  unfolding where_ order_by
  where-order_by tot tr q [] = refl
  where-order_by tot tr q (x ∷ xs) = elim (Bool-cases (q x)) [
    | inl y ↦
        where-insert_by tr q x (order_by le xs) (order_by-IsSorted tot tr xs)
        ∙ rw (y, where-order_by tot tr q xs) refl
    | inr n ↦
        where-insert_by tr q x (order_by le xs) (order_by-IsSorted tot tr xs)
        ∙ rw (n, where-order_by tot tr q xs) refl
  ]
