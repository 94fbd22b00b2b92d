-- ===== src/Table/Valid.antt =====
-- What Postgres keeps of the table between two statements.
use pgjobq.Base.{
  ℕ, ◌<◌, ◌≡◌, refl, sym, subst, inl, inr, Bool, true, false, List, [], ◌∷◌, map, arith, where_,
  all, any, In, all-In, In-all, In-where,
}
use pgjobq.Types.{Job}
use pgjobq.Table.{ok, check_row, unique_rows, clash, update, update_where}
use pgjobq.Table.Update.{
  update-ok, In-update_where, update_where-checks, update_where_none, update_passes, written_checks,
}
use pgjobq.Table.Ids.{Distinct, update_where-Distinct, where-Distinct}
use pgjobq.Table.Keys.{KeepsKeys, update_where_unique}

-- The constraints hold, no two rows share an id, and the sequence is past all ids.
pub record IsValid (next : ℕ) (t : List Job) : Type 0 where
  pub checks : all check_row t ≡ true
  pub keys : unique_rows t ≡ true
  pub ids : Distinct t
  pub below : (j : Job) → In j t → j.id < next

-- Any UPDATE that keeps the ids keeps the table valid, if it goes through.
pub update-IsValid :
    (next : ℕ) (p : Job → Bool) (f : Job → Job) (t t' w : List Job)
    → ((j : Job) → (f j).id ≡ j.id)
    → update p f t ≡ ok (t', w)
    → IsValid next t
    → IsValid next t'
update-IsValid next p f t t' w keep h v =
    let (new, rows, passed, unique) = update-ok p f t t' w h in
    subst (IsValid next) (sym new) (record {
      checks = update_where-checks p f t v.checks (rw rows at passed);
      keys = rw new at unique;
      ids = update_where-Distinct p f t keep v.ids;
      below = λ k m. elim (In-update_where p f t k m) [
        | inl (r, _) ↦ v.below k r
        | inr (j, r, _, e) ↦ rw (e, keep j) (v.below j r)
      ];
    })

-- An UPDATE goes through on a valid table if its rows pass their checks and keep their keys.
pub update_valid :
    {next : ℕ} (p : Job → Bool) (f : Job → Job) (t : List Job)
    → IsValid next t
    → ((j : Job) → p j ≡ true → check_row j ≡ true → check_row (f j) ≡ true)
    → ((j : Job) → p j ≡ true → KeepsKeys j (f j))
    → update p f t ≡ ok (update_where p f t, map f (where_ p t))
update_valid p f t v good keep =
    update_passes p f t (written_checks p f t (λ j m y. good j y (all-In check_row t j v.checks m)))
      (update_where_unique p f t (λ j m y. keep j y) v.keys)

-- An UPDATE that matches no row of a valid table changes nothing.
pub update_misses :
    {next : ℕ} (p : Job → Bool) (f : Job → Job) (t : List Job)
    → IsValid next t
    → ((j : Job) → In j t → p j ≡ false)
    → update p f t ≡ ok (t, [])
unfolding all
update_misses p f t v miss =
    let (same, empty) = update_where_none p f t miss in
    let passed = update_passes p f t (rw empty) (rw same v.keys) in rw (same, empty) at passed

any_where : (q p : Job → Bool) (t : List Job) → any q t ≡ false → any q (where_ p t) ≡ false
unfolding any where_
any_where q p [] h = refl
any_where q p (j ∷ t) h = ground (arith, any_where q p t)

where_unique :
    (p : Job → Bool) (t : List Job) → unique_rows t ≡ true → unique_rows (where_ p t) ≡ true
unfolding unique_rows where_
where_unique p [] h = refl
where_unique p (j ∷ t) h = ground (arith, where_unique p t, any_where (clash j) p t)

-- A DELETE keeps the table valid.
pub where-IsValid :
    (next : ℕ) (p : Job → Bool) (t : List Job) → IsValid next t → IsValid next (where_ p t)
where-IsValid next p t v = record {
  checks = In-all check_row _ (λ j m. all-In check_row t j v.checks (In-where p t j m).0);
  keys = where_unique p t v.keys;
  ids = where-Distinct p t v.ids;
  below = λ j m. v.below j (In-where p t j m).0;
}
