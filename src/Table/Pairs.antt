-- ===== src/Table/Pairs.antt =====
-- The unique indexes, said of two rows at a time.
use text.Mathlib.TextEquality.{eq_iff}
use pgjobq.Base.{
  ◌≡◌, refl, ◌≢◌, inl, inr, String, true, false, ◌&&◌, not, Option, none, some, List, [], ◌∷◌,
  arith, any, str_eq, In, In-any, any-In, Bool-cases,
}
use pgjobq.Types.{Job}
use pgjobq.Table.{clash, unique_rows, key_eq}
use pgjobq.Table.Ids.{Distinct}

pub str_eq_comm : (a b : String) → str_eq a b ≡ str_eq b a
str_eq_comm a b = ground (arith, eq_iff a b, eq_iff b a)

pub key_eq_comm : (a b : Option String) → key_eq a b ≡ key_eq b a
key_eq_comm none none = refl
key_eq_comm none (some b) = refl
key_eq_comm (some a) none = refl
key_eq_comm (some a) (some b) = str_eq_comm a b

pub clash_comm : (j k : Job) → clash j k ≡ clash k j
unfolding clash
clash_comm j k = ground (
  arith,
  str_eq_comm j.queue k.queue,
  key_eq_comm j.idempotency_key k.idempotency_key,
  key_eq_comm j.unique_key k.unique_key,
)

clear :
    (x : Job) (s : List Job)
    → (not (any (clash x) s) && unique_rows s) ≡ true
    → any (clash x) s ≡ false
clear x s h = ground arith

-- Two rows of a valid table do not collide.
pub unique_rows-clash :
    (t : List Job) (j k : Job)
    → unique_rows t ≡ true
    → In j t
    → In k t
    → j.id ≢ k.id
    → clash j k ≡ false
unfolding unique_rows
unique_rows-clash [] j k u m n ne = absurd m
unique_rows-clash (i ∷ t) j k u (inl a) (inl b) ne = absurd (ne (cc))
unique_rows-clash (i ∷ t) j k u (inl a) (inr n) ne = elim (Bool-cases (clash i k)) [
  | inl y ↦ cc (any-In (clash i) t k n y, clear i t u)
  | inr f ↦ rw a f
]
unique_rows-clash (i ∷ t) j k u (inr m) (inl b) ne = elim (Bool-cases (clash i j)) [
  | inl y ↦ cc (any-In (clash i) t j m y, clear i t u)
  | inr f ↦ rw (clash_comm j k, b) f
]
unique_rows-clash (i ∷ t) j k u (inr m) (inr n) ne = unique_rows-clash t j k (ground arith) m n ne

-- Rows that do not collide two by two satisfy the indexes.
pub unique_rows_of :
    (t : List Job)
    → Distinct t
    → ((j k : Job) → In j t → In k t → j.id ≢ k.id → clash j k ≡ false)
    → unique_rows t ≡ true
unfolding unique_rows
unique_rows_of [] d h = refl
unique_rows_of (i ∷ t) d h = rw (alone, unique_rows_of t d.1 (λ j k m n. h j k (inr m) (inr n)))
  where
    alone : any (clash i) t ≡ false
    alone = elim (Bool-cases (any (clash i) t)) [
      | inl y ↦ let (k, m, c) = In-any (clash i) t y in cc (c, h i k (inl refl) (inr m) (d.0 k m))
      | inr n ↦ n
    ]
