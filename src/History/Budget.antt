-- ===== src/History/Budget.antt =====
-- How often a job is delivered.
use pgjobq.Base.{
  ℕ, zero, suc, ◌+◌, ◌≤◌, ◌<◌, ◌≡◌, refl, sym, ◌∙◌, inl, inr, Bool, true, not, List, [], ◌∷◌, In,
  In-where, where_, length, arith, ◌==◌, all-In, Bool-cases, ==_iff,
}
use pgjobq.Types.{Job}
use pgjobq.Table.{check_row}
use pgjobq.History.{Op, Grant, World, run}
use pgjobq.History.Owners.{IsSound, run-IsSound}
use pgjobq.History.Deliveries.{HasNoReplay, IsFenced, run-IsFenced, AreApart}

length-split :
    (p : Grant → Bool) (l : List Grant)
    → length l ≡ length (where_ p l) + length (where_ (λ a. not (p a)) l)
unfolding where_
length-split p [] = omega arith
length-split p (a ∷ l) = ground (arith, length-split p l)

where-AreApart : (p : Grant → Bool) (l : List Grant) → AreApart l → AreApart (where_ p l)
unfolding where_
where-AreApart p [] d = tt
where-AreApart p (a ∷ l) d = elim (Bool-cases (p a)) [
  | inl y ↦ rw y (λ b m. d.0 b (In-where p l b m).0, where-AreApart p l d.1)
  | inr n ↦ rw n (where-AreApart p l d.1)
]

-- Entries of one job and one attempt are one entry.
one_entry :
    (l : List Grant) (i n : ℕ)
    → AreApart l
    → ((a : Grant) → In a l → (a.id ≡ i) × (a.attempt ≡ n))
    → length l ≤ 1
one_entry [] i n d h = omega arith
one_entry (a ∷ []) i n d h = omega arith
one_entry (a ∷ b ∷ l) i n d h =
    let (p, q) = h a (inl refl) in
    let (r, s) = h b (inr (inl refl)) in absurd (d.0 b (inl refl) (p ∙ sym r) (q ∙ sym s))

pigeonhole :
    (n : ℕ) (l : List Grant) (i : ℕ)
    → AreApart l
    → ((a : Grant) → In a l → (a.id ≡ i) × (0 < a.attempt) × (a.attempt ≤ n))
    → length l ≤ n
pigeonhole zero [] i d h = omega arith
pigeonhole zero (a ∷ l) i d h = let (_, p, q) = h a (inl refl) in absurd (omega (arith, p, q))
pigeonhole (suc n) l i d h = omega (
  arith,
  length-split top l,
  one_entry (where_ top l) i (suc n) (where-AreApart top l d) tops,
  pigeonhole n (where_ (λ a. not (top a)) l) i (where-AreApart (λ a. not (top a)) l d) rest,
)
  where
    top : Grant → Bool
    top a = a.attempt == suc n

    tops : (a : Grant) → In a (where_ top l) → (a.id ≡ i) × (a.attempt ≡ suc n)
    tops a m = let (r, e) = In-where top l a m in ((h a r).0, (==_iff _ _).0 e)

    below : (x : ℕ) → x ≤ suc n → not (x == suc n) ≡ true → x ≤ n
    below x le ne = ground arith

    rest :
        (a : Grant)
        → In a (where_ (λ b. not (top b)) l)
        → (a.id ≡ i) × (0 < a.attempt) × (a.attempt ≤ n)
    rest a m =
        let (r, ne) = In-where (λ b. not (top b)) l a m in
        let (e, p, q) = h a r in (e, p, below a.attempt q ne)

checked : (j : Job) → check_row j ≡ true → j.attempt ≤ j.max_attempts
unfolding check_row
checked j h = ground arith

-- From a sound and fenced start and with no replay, a job in the table has been delivered at most
-- as often as its attempt says, and its attempt is at most `max_attempts`: a job that kills each
-- of its workers is not retried for ever.
pub deliveries_bounded :
    (es : List (ℕ × Op)) (g : World) (j : Job)
    → HasNoReplay es
    → IsSound g
    → IsFenced g
    → In j (run es g).jobs.rows
    → (length (where_ (λ a. a.id == j.id) (run es g).grants) ≤ j.attempt)
      × (j.attempt ≤ j.max_attempts)
deliveries_bounded es g j h v f m = (
  pigeonhole j.attempt _ j.id (where-AreApart mine _ fenced.once) bounds,
  checked j (all-In check_row _ j sound.good.checks m),
)
  where
    mine : Grant → Bool
    mine a = a.id == j.id

    sound : IsSound (run es g)
    sound = run-IsSound es g v

    fenced : IsFenced (run es g)
    fenced = run-IsFenced es g h v f

    bounds :
        (a : Grant)
        → In a (where_ mine (run es g).grants)
        → (a.id ≡ j.id) × (0 < a.attempt) × (a.attempt ≤ j.attempt)
    bounds a n =
        let (r, e) = In-where mine (run es g).grants a n in
        let q = (==_iff _ _).0 e in (q, sound.positive a r, fenced.spent a j r m q)
