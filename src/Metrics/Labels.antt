-- ===== src/Metrics/Labels.antt =====
-- Metrics: the labels that any sequence of job types comes to.
use text.Mathlib.TextEquality.{eq_iff}
use pgjobq.Base.{
  ◌≤◌, max, ◌≡◌, refl, subst, ◌⊎◌, inl, inr, String, true, List, [], ◌∷◌, any, arith, ltb, str_eq,
  length, length-append, In, In-any, append-In, All, Bool-cases,
}
use pgjobq.Metrics.{Metrics, other_label, label_type, label_types}

-- What one call does: its label is known after it or is `other`, and what was known stays known.
abbrev Labels : String × Metrics → Metrics → Type 0
Labels (label, m') m =
    (In label m'.known ⊎ (label ≡ other_label))
    × ((k : String) → In k m.known → In k m'.known)
    × (length m'.known ≤ max (length m.known) m.max_known)
    × (m'.max_known ≡ m.max_known)

In_known : (type : String) (ks : List String) → any (λ k. str_eq k type) ks ≡ true → In type ks
In_known type ks h =
    let (k, m, e) = In-any (λ k. str_eq k type) ks h in subst (λ x. In x ks) ((eq_iff k type).0 e) m

label_type-Labels : (type : String) (m : Metrics) → Labels (label_type type m) m
unfolding label_type
label_type-Labels type m = elim (Bool-cases (any (λ k. str_eq k type) m.known)) [
  | inl y ↦ rw (y, label_type) (inl (In_known type m.known y), λ k i. i, omega arith, refl)
  | inr n ↦ elim (Bool-cases (ltb (length m.known) m.max_known)) [
    | inr f ↦ rw (n, f, label_type) (inr refl, λ k i. i, omega arith, refl)
    | inl l ↦
        rw (n, l, label_type)
          (
            inl (append-In m.known (type ∷ []) type (inr (inl refl))),
            λ k i. append-In m.known (type ∷ []) k (inl i),
            ground (arith, l, length-append m.known (type ∷ [])),
            refl,
          )
  ]
]

labels-Labelled :
    (types : List String) (m : Metrics)
    → All
        (λ label. In label (label_types types m).1.known ⊎ (label ≡ other_label))
        (label_types types m).0
      × ((k : String) → In k m.known → In k (label_types types m).1.known)
      × (length (label_types types m).1.known ≤ max (length m.known) m.max_known)
unfolding label_types
labels-Labelled [] m = (tt, λ k i. i, omega arith)
labels-Labelled (type ∷ types) m =
    let (here, keep, size, same) = label_type-Labels type m in
    let (later, keep', size') = labels-Labelled types (label_type type m).1 in
    ((carried here keep', later), λ k i. keep' k (keep k i), omega (arith, size, size', same))
  where
    carried :
        In (label_type type m).0 (label_type type m).1.known ⊎ ((label_type type m).0 ≡ other_label)
        → ((k : String)
            → In k (label_type type m).1.known
            → In k (label_types types (label_type type m).1).1.known)
        → In (label_type type m).0 (label_types types (label_type type m).1).1.known
          ⊎ ((label_type type m).0 ≡ other_label)
    carried (inl i) f = inl (f _ i)
    carried (inr e) f = inr e

-- Whatever types come, in whatever order: each label is one of the types known in the end or `other`, and
-- the types known in the end are at most as many as were known at first or as the cap allows, so that the
-- labels are bounded whoever chooses the types.
pub label_types-bounded :
    (types : List String) (m : Metrics)
    → All
        (λ label. In label (label_types types m).1.known ⊎ (label ≡ other_label))
        (label_types types m).0
      × (length (label_types types m).1.known ≤ max (length m.known) m.max_known)
label_types-bounded types m = let (a, _, c) = labels-Labelled types m in (a, c)
