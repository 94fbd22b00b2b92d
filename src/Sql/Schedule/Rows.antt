-- ===== src/Sql/Schedule/Rows.antt =====
-- Sql.Schedule: the rows of an UPDATE.
use pgjobq.Base.{
  ◌≡◌, refl, ap, ◌∙◌, ◌⊎◌, inl, inr, Bool, true, false, List, [], ◌∷◌, In, Bool-cases,
}
use pgjobq.Sql.Schedule.{Schedule, set_where}

pub In-set_where :
    (p : Schedule → Bool) (f : Schedule → Schedule) (ss : List Schedule) (s : Schedule)
    → In s (set_where p f ss)
    → (In s ss × (p s ≡ false)) ⊎ ((a : Schedule) × (p a ≡ true) × (s ≡ f a))
unfolding set_where
In-set_where p f [] s m = absurd m
In-set_where p f (a ∷ ss) s (inl e) = elim (Bool-cases (p a)) [
  | inl y ↦ inr (a, y, e ∙ rw y refl)
  | inr n ↦ let q : s ≡ a = e ∙ rw n refl in inl (inl q, ap p q ∙ n)
]
In-set_where p f (a ∷ ss) s (inr m) = elim (In-set_where p f ss s m) [
  | inl (r, n) ↦ inl (inr r, n)
  | inr c ↦ inr c
]
