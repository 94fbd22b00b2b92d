-- ===== src/Base/Keyed.antt =====
-- A JavaScript `Map` whose keys are job ids, as the list of its entries.
use pgjobq.Base.{
  ◌++◌, ℕ, suc, ◌≤◌, ◌≡◌, refl, Bool, true, false, List, [], ◌∷◌, arith, ◌==◌, if◌then◌else◌,
  length,
}

module _ {A : Type 0} where
  -- `map.has(k)`
  unfoldable pub has_key : ℕ → List (ℕ × A) → Bool
  has_key k [] = false
  has_key k ((i, a) ∷ m) = let rest = has_key k m in if i == k then true else rest

  -- `map.set(k, a)`: an entry that is there keeps its place.
  unfoldable pub set_key : ℕ → A → List (ℕ × A) → List (ℕ × A)
  set_key k a [] = (k, a) ∷ []
  set_key k a ((i, b) ∷ m) =
      let rest = set_key k a m in if i == k then (i, a) ∷ m else (i, b) ∷ rest

  -- `map.delete(k)`
  unfoldable pub delete_key : ℕ → List (ℕ × A) → List (ℕ × A)
  delete_key k [] = []
  delete_key k ((i, b) ∷ m) = let rest = delete_key k m in if i == k then rest else (i, b) ∷ rest

  pub length-set_key : (k : ℕ) (a : A) (m : List (ℕ × A)) → length (set_key k a m) ≤ suc (length m)
  unfolding set_key
  length-set_key k a [] = omega arith
  length-set_key k a ((i, b) ∷ m) = ground (arith, length-set_key k a m)

  pub length-set_key_new :
      (k : ℕ) (a : A) (m : List (ℕ × A))
      → has_key k m ≡ false
      → length (set_key k a m) ≡ suc (length m)
  unfolding set_key has_key
  length-set_key_new k a [] h = refl
  length-set_key_new k a ((i, b) ∷ m) h = ground (arith, length-set_key_new k a m)

  pub length-delete_key : (k : ℕ) (m : List (ℕ × A)) → length (delete_key k m) ≤ length m
  unfolding delete_key
  length-delete_key k [] = omega arith
  length-delete_key k ((i, b) ∷ m) = ground (arith, length-delete_key k m)

  pub has_key-delete_key : (k : ℕ) (m : List (ℕ × A)) → has_key k (delete_key k m) ≡ false
  unfolding delete_key has_key
  has_key-delete_key k [] = refl
  has_key-delete_key k ((i, b) ∷ m) = ground (arith, has_key-delete_key k m)

  -- A new key goes to the end.
  pub set_key_new :
      (k : ℕ) (a : A) (m : List (ℕ × A)) → has_key k m ≡ false → set_key k a m ≡ m ++ (k, a) ∷ []
  unfolding set_key has_key
  set_key_new k a [] h = refl
  set_key_new k a ((i, b) ∷ m) h = ground (arith, set_key_new k a m)
