-- ===== src/Table/Ids.antt =====
-- The primary key: no two rows share an id, and a statement on one id is one on its row.
use pgjobq.Base.{
  ◌≡◌, refl, sym, ap, ◌≢◌, ◌⊎◌, ◌∙◌, inl, inr, Bool, true, false, List, [], ◌∷◌, ◌++◌, where_,
  if◌then◌else◌, In, Bool-cases, In-where,
}
use pgjobq.Types.{Job}
use pgjobq.Table.{update_where}
use pgjobq.Table.Update.{In-update_where}

abbrev pub Distinct : List Job → Type 0
Distinct [] = Unit {0}
Distinct (j ∷ t) = ((k : Job) → In k t → j.id ≢ k.id) × Distinct t

-- Rows with one id are one row.
pub In-id_eq : (t : List Job) (j k : Job) → Distinct t → In j t → In k t → j.id ≡ k.id → j ≡ k
In-id_eq [] j k d m n e = absurd m
In-id_eq (i ∷ t) j k d (inl a) (inl b) e = cc
In-id_eq (i ∷ t) j k d (inl a) (inr n) e = absurd (d.0 k n (cc))
In-id_eq (i ∷ t) j k d (inr m) (inl b) e = absurd (d.0 j m (cc))
In-id_eq (i ∷ t) j k d (inr m) (inr n) e = In-id_eq t j k d.1 m n e

pub where_none :
    (p : Job → Bool) (t : List Job) → ((k : Job) → In k t → p k ≡ false) → where_ p t ≡ []
unfolding where_
where_none p [] h = refl
where_none p (j ∷ t) h = rw (h j (inl refl)) (where_none p t (λ k m. h k (inr m)))

none_below :
    (p : Job → Bool) (i : Job) (t : List Job)
    → ((k : Job) → In k t → i.id ≢ k.id)
    → ((k : Job) → p k ≡ true → k.id ≡ i.id)
    → (k : Job) → In k t
    → p k ≡ false
none_below p i t away same k m = elim (Bool-cases (p k)) [
  | inl y ↦ absurd (away k m (sym (same k y)))
  | inr n ↦ n
]

-- A test that only one id can pass selects that id's row, and no other.
pub where_one :
    (p : Job → Bool) (t : List Job) (j : Job)
    → Distinct t
    → In j t
    → p j ≡ true
    → ((k : Job) → p k ≡ true → k.id ≡ j.id)
    → where_ p t ≡ j ∷ []
unfolding where_
where_one p [] j d m y same = absurd m
where_one p (i ∷ t) j d (inl e) y same =
    let hit : p i ≡ true = rw (← e) y in
    let rest = where_none p t (none_below p i t d.0 (λ k z. rw (← e) (same k z))) in
    rw (hit, rest, e)
where_one p (i ∷ t) j d (inr m) y same = elim (Bool-cases (p i)) [
  | inl z ↦ absurd (d.0 j m (same i z))
  | inr n ↦ rw n (where_one p t j d.1 m y same)
]

pub update_where-Distinct :
    (p : Job → Bool) (f : Job → Job) (t : List Job)
    → ((j : Job) → (f j).id ≡ j.id)
    → Distinct t
    → Distinct (update_where p f t)
unfolding update_where
update_where-Distinct p f [] keep d = tt
update_where-Distinct p f (j ∷ t) keep d = (away, update_where-Distinct p f t keep d.1)
  where
    head : (if p j then f j else j).id ≡ j.id
    head = elim (Bool-cases (p j)) [ inl y ↦ rw y (keep j) | inr n ↦ rw n ]

    away : (k : Job) → In k (update_where p f t) → (if p j then f j else j).id ≢ k.id
    away k m e = elim (In-update_where p f t k m) [
      | inl (r, _) ↦ d.0 k r (sym head ∙ e)
      | inr (i, r, _, q) ↦ d.0 i r (sym head ∙ e ∙ ap (λ (x : Job). x.id) q ∙ keep i)
    ]

pub where-Distinct : (p : Job → Bool) (t : List Job) → Distinct t → Distinct (where_ p t)
unfolding where_
where-Distinct p [] d = tt
where-Distinct p (j ∷ t) d = elim (Bool-cases (p j)) [
  | inl y ↦ rw y (λ k m. d.0 k (In-where p t k m).0, where-Distinct p t d.1)
  | inr n ↦ rw n (where-Distinct p t d.1)
]

pub append-Distinct :
    (t : List Job) (j : Job)
    → Distinct t
    → ((k : Job) → In k t → k.id ≢ j.id)
    → Distinct (t ++ j ∷ [])
append-Distinct [] j d h = (λ k m. absurd m, tt)
append-Distinct (i ∷ t) j d h = (away, append-Distinct t j d.1 (λ k m. h k (inr m)))
  where
    last : (s : List Job) (k : Job) → In k (s ++ j ∷ []) → (k ≡ j) ⊎ In k s
    last [] k (inl e) = inl e
    last [] k (inr m) = inr m
    last (x ∷ s) k (inl e) = inr (inl e)
    last (x ∷ s) k (inr m) = elim (last s k m) [ inl e ↦ inl e | inr r ↦ inr (inr r) ]

    away : (k : Job) → In k (t ++ j ∷ []) → i.id ≢ k.id
    away k m e = elim (last t k m) [
      | inl q ↦ h i (inl refl) (e ∙ ap (λ (x : Job). x.id) q)
      | inr r ↦ d.0 k r e
    ]
