-- ===== src/Base/Lists.antt =====
-- Lists measured by native numbers, filtered and sorted by Boolean tests; membership by recursion.
use Prim.Native.Nat.{ℕ, zero, suc, ◌+◌, ◌≤◌, ◌<◌}
use mathlib.Core.Path.{◌≡◌, refl, sym, ap, subst}
use mathlib.Core.Logic.{◌⊎◌, inl, inr}
use mathlib.Core.Bool.{Bool, true, false, ◌&&◌, ◌||◌}
use mathlib.Core.List.{List, [], ◌∷◌, ◌++◌, map}
use native.Mathlib.Omega.{arith}
use pgjobq.Base.Tests.{if◌then◌else◌, Bool-cases}

module _ {ℓ} {A : Type ℓ} where
  abbrev pub length : List A → ℕ
  length [] = 0
  length (x ∷ xs) = suc (length xs)

  abbrev pub take : ℕ → List A → List A
  take zero xs = []
  take (suc n) [] = []
  take (suc n) (x ∷ xs) = x ∷ take n xs

  -- `Array.prototype.filter`, and the WHERE clause of a statement.
  unfoldable pub where_ : (A → Bool) → List A → List A
  where_ p [] = []
  where_ p (x ∷ xs) = let rest = where_ p xs in if p x then x ∷ rest else rest

  unfoldable pub all : (A → Bool) → List A → Bool
  all p [] = true
  all p (x ∷ xs) = p x && all p xs

  unfoldable pub any : (A → Bool) → List A → Bool
  any p [] = false
  any p (x ∷ xs) = p x || any p xs

  -- ORDER BY: an insertion sort by a test "is before, or equal".
  unfoldable pub insert_by : (A → A → Bool) → A → List A → List A
  insert_by le x [] = x ∷ []
  insert_by le x (y ∷ ys) = let rest = insert_by le x ys in if le x y then x ∷ y ∷ ys else y ∷ rest

  unfoldable pub order_by : (A → A → Bool) → List A → List A
  unfolding insert_by
  order_by le [] = []
  order_by le (x ∷ xs) = insert_by le x (order_by le xs)

  pub length-append : (xs ys : List A) → length (xs ++ ys) ≡ length xs + length ys
  length-append [] ys = omega arith
  length-append (x ∷ xs) ys = omega (arith, length-append xs ys)

  pub length-take-le : (n : ℕ) (xs : List A) → length (take n xs) ≤ n
  length-take-le zero xs = omega arith
  length-take-le (suc n) [] = omega arith
  length-take-le (suc n) (x ∷ xs) = omega (arith, length-take-le n xs)

  pub take_all : (n : ℕ) (xs : List A) → length xs ≤ n → take n xs ≡ xs
  take_all zero [] h = refl
  take_all zero (x ∷ xs) h = absurd (omega arith)
  take_all (suc n) [] h = refl
  take_all (suc n) (x ∷ xs) h = ap (◌∷◌ x) (take_all n xs (omega arith))

  pub take_short : (n : ℕ) (xs : List A) → length (take n xs) < n → take n xs ≡ xs
  take_short zero xs h = absurd (omega (arith, h))
  take_short (suc n) [] h = refl
  take_short (suc n) (x ∷ xs) h = ap (◌∷◌ x) (take_short n xs (omega (arith, h)))

  pub length-insert_by :
      (le : A → A → Bool) (x : A) (xs : List A) → length (insert_by le x xs) ≡ suc (length xs)
  unfolding insert_by
  length-insert_by le x [] = refl
  length-insert_by le x (y ∷ ys) = ground (arith, length-insert_by le x ys)

  pub length-take-all : (n : ℕ) (xs : List A) → length (take n xs) ≤ length xs
  length-take-all zero xs = omega arith
  length-take-all (suc n) [] = omega arith
  length-take-all (suc n) (x ∷ xs) = omega (arith, length-take-all n xs)

  pub length-order_by : (le : A → A → Bool) (xs : List A) → length (order_by le xs) ≡ length xs
  unfolding order_by
  length-order_by le [] = refl
  length-order_by le (x ∷ xs) =
      omega (arith, length-insert_by le x (order_by le xs), length-order_by le xs)

  pub length-where-le : (p : A → Bool) (xs : List A) → length (where_ p xs) ≤ length xs
  unfolding where_
  length-where-le p [] = omega arith
  length-where-le p (x ∷ xs) = ground (arith, length-where-le p xs)

module _ {A : Type 0} where
  abbrev pub In : A → List A → Type 0
  In x [] = ⊥
  In x (y ∷ ys) = (x ≡ y) ⊎ In x ys

  abbrev pub All : (A → Type 0) → List A → Type 0
  All P [] = Unit {0}
  All P (x ∷ xs) = P x × All P xs

  pub All-In : (P : A → Type 0) (xs : List A) (x : A) → All P xs → In x xs → P x
  All-In P [] x h m = absurd m
  All-In P (y ∷ ys) x h (inl e) = subst P (sym e) h.0
  All-In P (y ∷ ys) x h (inr m) = All-In P ys x h.1 m

  pub In-All : (P : A → Type 0) (xs : List A) → ((x : A) → In x xs → P x) → All P xs
  In-All P [] h = tt
  In-All P (x ∷ xs) h = (h x (inl refl), In-All P xs (λ y m. h y (inr m)))

  pub In-where : (p : A → Bool) (xs : List A) (x : A) → In x (where_ p xs) → In x xs × (p x ≡ true)
  unfolding where_
  In-where p [] x m = absurd m
  In-where p (y ∷ ys) x m = ground (arith, In-where p ys x)

  pub where-In : (p : A → Bool) (xs : List A) (x : A) → In x xs → p x ≡ true → In x (where_ p xs)
  unfolding where_
  where-In p [] x m h = absurd m
  where-In p (y ∷ ys) x m h = ground (arith, where-In p ys x)

  pub In-append : (xs ys : List A) (x : A) → In x (xs ++ ys) → In x xs ⊎ In x ys
  In-append [] ys x m = inr m
  In-append (y ∷ xs) ys x (inl e) = inl (inl e)
  In-append (y ∷ xs) ys x (inr m) = elim (In-append xs ys x m) [
    | inl r ↦ inl (inr r)
    | inr r ↦ inr r
  ]

  pub append-In : (xs ys : List A) (x : A) → In x xs ⊎ In x ys → In x (xs ++ ys)
  append-In [] ys x (inl m) = absurd m
  append-In [] ys x (inr m) = m
  append-In (y ∷ xs) ys x (inl (inl e)) = inl e
  append-In (y ∷ xs) ys x (inl (inr m)) = inr (append-In xs ys x (inl m))
  append-In (y ∷ xs) ys x (inr m) = inr (append-In xs ys x (inr m))

  pub In-take : (n : ℕ) (xs : List A) (x : A) → In x (take n xs) → In x xs
  In-take zero xs x m = absurd m
  In-take (suc n) [] x m = absurd m
  In-take (suc n) (y ∷ ys) x (inl e) = inl e
  In-take (suc n) (y ∷ ys) x (inr m) = inr (In-take n ys x m)

  pub all-In : (p : A → Bool) (xs : List A) (x : A) → all p xs ≡ true → In x xs → p x ≡ true
  unfolding all
  all-In p [] x h m = absurd m
  all-In p (y ∷ ys) x h m = ground (arith, all-In p ys x)

  pub In-all : (p : A → Bool) (xs : List A) → ((x : A) → In x xs → p x ≡ true) → all p xs ≡ true
  unfolding all
  In-all p [] h = refl
  In-all p (x ∷ xs) h = rw (h x (inl refl), In-all p xs (λ y m. h y (inr m)))

  pub any-In : (p : A → Bool) (xs : List A) (x : A) → In x xs → p x ≡ true → any p xs ≡ true
  unfolding any
  any-In p [] x m h = absurd m
  any-In p (y ∷ ys) x m h = ground (arith, any-In p ys x)

  pub In-any : (p : A → Bool) (xs : List A) → any p xs ≡ true → (x : A) × In x xs × (p x ≡ true)
  unfolding any
  In-any p [] h = cc
  In-any p (x ∷ xs) h = elim (Bool-cases (p x)) [
    | inl e ↦ (x, inl refl, e)
    | inr e ↦ let (y, m, g) = In-any p xs (rw e at h) in (y, inr m, g)
  ]

  pub In-insert_by :
      (le : A → A → Bool) (x : A) (ys : List A) (z : A)
      → In z (insert_by le x ys)
      → (z ≡ x) ⊎ In z ys
  unfolding insert_by
  In-insert_by le x [] z m = m
  In-insert_by le x (y ∷ ys) z m = ground (arith, In-insert_by le x ys z)

  pub insert_by-In :
      (le : A → A → Bool) (x : A) (ys : List A) (z : A)
      → (z ≡ x) ⊎ In z ys
      → In z (insert_by le x ys)
  unfolding insert_by
  insert_by-In le x [] z m = m
  insert_by-In le x (y ∷ ys) z m = ground (arith, insert_by-In le x ys z)

  pub In-order_by : (le : A → A → Bool) (xs : List A) (x : A) → In x (order_by le xs) → In x xs
  unfolding order_by
  In-order_by le [] x m = m
  In-order_by le (y ∷ ys) x m = elim (In-insert_by le y (order_by le ys) x m) [
    | inl e ↦ inl e
    | inr r ↦ inr (In-order_by le ys x r)
  ]

  pub order_by-In : (le : A → A → Bool) (xs : List A) (x : A) → In x xs → In x (order_by le xs)
  unfolding order_by
  order_by-In le [] x m = m
  order_by-In le (y ∷ ys) x (inl e) = insert_by-In le y (order_by le ys) x (inl e)
  order_by-In le (y ∷ ys) x (inr m) =
      insert_by-In le y (order_by le ys) x (inr (order_by-In le ys x m))

module _ {A B : Type 0} where
  pub In-map : (f : A → B) (xs : List A) (y : B) → In y (map f xs) → (x : A) × In x xs × (y ≡ f x)
  In-map f [] y m = absurd m
  In-map f (x ∷ xs) y (inl e) = (x, inl refl, e)
  In-map f (x ∷ xs) y (inr m) = let (z, r, e) = In-map f xs y m in (z, inr r, e)

  pub map-In : (f : A → B) (xs : List A) (x : A) → In x xs → In (f x) (map f xs)
  map-In f [] x m = absurd m
  map-In f (y ∷ ys) x (inl e) = inl (ap f e)
  map-In f (y ∷ ys) x (inr m) = inr (map-In f ys x m)

  pub length-map : (f : A → B) (xs : List A) → length (map f xs) ≡ length xs
  length-map f [] = refl
  length-map f (x ∷ xs) = ap suc (length-map f xs)
