-- ===== src/Table/Selection.antt =====
-- Rows chosen by ORDER BY, LIMIT and a join on their ids.
use pgjobq.Base.{
  ℕ, zero, suc, ◌+◌, ◌≡◌, refl, sym, ◌≢◌, ◌∙◌, inl, inr, Bool, true, false, ◌||◌, List, [], ◌∷◌,
  arith, where_, any, take, insert_by, order_by, length, ◌==◌, subst, In, In-any, any-In, In-take,
  In-insert_by, In-order_by, Bool-cases, ==_iff, ap,
}
use pgjobq.Types.{Job}
use pgjobq.Table.{among}
use pgjobq.Table.Ids.{Distinct, In-id_eq, where_one, where_none}

insert_by-Distinct :
    (le : Job → Job → Bool) (j : Job) (t : List Job)
    → Distinct (j ∷ t)
    → Distinct (insert_by le j t)
unfolding insert_by
insert_by-Distinct le j [] d = d
insert_by-Distinct le j (k ∷ t) d = elim (Bool-cases (le j k)) [
  | inl y ↦ rw y d
  | inr n ↦ rw n (away, insert_by-Distinct le j t (λ i m. d.0 i (inr m), d.1.1))
]
  where
    away : (i : Job) → In i (insert_by le j t) → k.id ≢ i.id
    away i m e = elim (In-insert_by le j t i m) [
      | inl q ↦ d.0 k (inl refl) (ap (λ (x : Job). x.id) (sym q) ∙ sym e)
      | inr r ↦ d.1.0 i r e
    ]

pub order_by-Distinct :
    (le : Job → Job → Bool) (t : List Job) → Distinct t → Distinct (order_by le t)
unfolding order_by
order_by-Distinct le [] d = tt
order_by-Distinct le (j ∷ t) d =
    insert_by-Distinct le j (order_by le t)
      (λ k m. d.0 k (In-order_by le t k m), order_by-Distinct le t d.1)

pub take-Distinct : (n : ℕ) (t : List Job) → Distinct t → Distinct (take n t)
take-Distinct zero t d = tt
take-Distinct (suc n) [] d = tt
take-Distinct (suc n) (j ∷ t) d = (λ k m. d.0 k (In-take n t k m), take-Distinct n t d.1)

pub among_lem : (c : List Job) (j : Job) → among c j ≡ true → (k : Job) × In k c × (k.id ≡ j.id)
among_lem c j h = let (k, m, e) = In-any (λ (i : Job). i.id == j.id) c h in (k, m, (==_iff _ _).0 e)

pub among-In : (c : List Job) (j : Job) → In j c → among c j ≡ true
among-In c j m = any-In (λ (i : Job). i.id == j.id) c j m ((==_iff _ _).1 refl)

-- A row of the table joins a selection of the table's rows exactly if it is one of them.
pub among_selected :
    (c t : List Job) (j : Job)
    → Distinct t
    → ((k : Job) → In k c → In k t)
    → In j t
    → among c j ≡ true
    → In j c
among_selected c t j d sub m h =
    let (k, n, e) = among_lem c j h in
    subst (λ (x : Job). In x c) (In-id_eq t k j d (sub k n) m e) n

length-where_or :
    (p q : Job → Bool) (t : List Job)
    → ((j : Job) → p j ≡ true → q j ≡ false)
    → length (where_ (λ j. p j || q j) t) ≡ length (where_ p t) + length (where_ q t)
unfolding where_
length-where_or p q [] h = omega arith
length-where_or p q (j ∷ t) h = ground (arith, h j, length-where_or p q t h)

-- As many rows are joined as were selected.
pub length-where_among :
    (c t : List Job)
    → Distinct t
    → Distinct c
    → ((k : Job) → In k c → In k t)
    → length (where_ (among c) t) ≡ length c
unfolding any
length-where_among [] t d e sub = ap length (where_none (among []) t (λ k m. refl))
length-where_among (k ∷ c) t d e sub = omega (
  arith,
  length-where_or (λ j. k.id == j.id) (among c) t disjoint,
  ap length one,
  length-where_among c t d e.1 (λ i m. sub i (inr m)),
)
  where
    disjoint : (j : Job) → (k.id == j.id) ≡ true → among c j ≡ false
    disjoint j y = elim (Bool-cases (among c j)) [
      | inl z ↦ let (i, m, q) = among_lem c j z in absurd (e.0 i m ((==_iff _ _).0 y ∙ sym q))
      | inr n ↦ n
    ]

    one : where_ (λ j. k.id == j.id) t ≡ k ∷ []
    one = where_one _ t k d (sub k (inl refl)) ((==_iff _ _).1 refl) (λ i y. sym ((==_iff _ _).0 y))
