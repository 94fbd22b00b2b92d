-- ===== src/Client/Stats/Groups.antt =====
-- Client.Stats: the groups of the statement, and the rows of the table.
use text.Mathlib.TextEquality.{eq_iff}
use pgjobq.Base.{
  ℕ, zero, suc, ◌+◌, ◌≡◌, refl, sym, ap, ◌∙◌, inl, inr, String, Bool, true, false, ◌&&◌, Option,
  none, some, List, [], ◌∷◌, arith, str_eq, where_, length, Bool-cases, if◌then◌else◌, and_left,
  and_right,
}
use pgjobq.Types.{Job, JobState}
use pgjobq.StateMachine.{state_eq}
use pgjobq.Client.Stats.{QueueStatsRow, is_group, counted, queue_stats}

pub state_same : (a b : JobState) → state_eq a b ≡ true → a ≡ b
state_same JobState.available JobState.available h = refl
state_same JobState.running JobState.running h = refl
state_same JobState.succeeded JobState.succeeded h = refl
state_same JobState.dead JobState.dead h = refl
state_same JobState.cancelled JobState.cancelled h = refl
state_same _ _ h = cc

state_eq_refl : (a : JobState) → state_eq a a ≡ true
state_eq_refl JobState.available = refl
state_eq_refl JobState.running = refl
state_eq_refl JobState.succeeded = refl
state_eq_refl JobState.dead = refl
state_eq_refl JobState.cancelled = refl

-- Two keys that are the same, or a test that says no.
abbrev pub same_key : String → JobState → String → JobState → Bool
same_key p a q b = str_eq p q && state_eq a b

pub same_key-eq : (p q : String) (a b : JobState) → same_key p a q b ≡ true → (p ≡ q) × (a ≡ b)
same_key-eq p q a b h =
    ((eq_iff p q).0 (and_left _ _ h), state_same a b (and_right (str_eq p q) _ h))

eq-same_key : (p q : String) (a b : JobState) → p ≡ q → a ≡ b → same_key p a q b ≡ true
eq-same_key p q a b e f = rw ((eq_iff p q).1 e, f, state_eq_refl b) refl

abbrev pub found : String → JobState → List QueueStatsRow → Option ℕ
found q s [] = none
found q s (r ∷ rs) = let rest = found q s rs in if is_group q s r then some r.count else rest

abbrev one_more : Option ℕ → ℕ
one_more none = 1
one_more (some n) = n + 1

found-counted :
    (q : String) (s : JobState) (rs : List QueueStatsRow)
    → found q s (counted q s rs) ≡ some (one_more (found q s rs))
unfolding counted
found-counted q s [] = rw (eq-same_key q q s s refl refl) refl
found-counted q s (r ∷ rs) = elim (Bool-cases (is_group q s r)) [
  | inl y ↦ rw y (rw y refl)
  | inr n ↦ rw n (rw n (found-counted q s rs))
]

found-counted_other :
    (q p : String) (s a : JobState) (rs : List QueueStatsRow)
    → same_key p a q s ≡ false
    → found q s (counted p a rs) ≡ found q s rs
unfolding counted
found-counted_other q p s a [] h = rw h refl
found-counted_other q p s a (r ∷ rs) h = elim (Bool-cases (is_group p a r)) [
  | inr n ↦
      rw n (ap (λ o. if is_group q s r then some r.count else o) (found-counted_other q p s a rs h))
  | inl y ↦
      let (e, f) = same_key-eq r.queue p r.state a y in
      let no : is_group q s r ≡ false = rw (e, f) h in rw (y, no) refl
]

-- No group has two rows.
abbrev pub Apart : List QueueStatsRow → Type 0
Apart [] = Unit {0}
Apart (r ∷ rs) = (found r.queue r.state rs ≡ none) × Apart rs

flipped : (p q : String) (a b : JobState) → same_key p a q b ≡ false → same_key q b p a ≡ false
flipped p q a b h = elim (Bool-cases (same_key q b p a)) [
  | inr n ↦ n
  | inl y ↦
      let (e, f) = same_key-eq q p b a y in absurd (cc (h, eq-same_key p q a b (sym e) (sym f)))
]

counted-Apart :
    (q : String) (s : JobState) (rs : List QueueStatsRow) → Apart rs → Apart (counted q s rs)
unfolding counted
counted-Apart q s [] d = (refl, tt)
counted-Apart q s (r ∷ rs) (fresh, d) = elim (Bool-cases (is_group q s r)) [
  | inl y ↦ rw y (fresh, d)
  | inr n ↦ rw n (
    found-counted_other r.queue q r.state s rs (flipped r.queue q r.state s n) ∙ fresh,
    counted-Apart q s rs d,
  )
]

pub queue_stats-Apart : (t : List Job) → Apart (queue_stats t)
unfolding queue_stats
queue_stats-Apart [] = tt
queue_stats-Apart (j ∷ t) = counted-Apart j.queue j.state (queue_stats t) (queue_stats-Apart t)

abbrev pub in_group : String → JobState → Job → Bool
in_group q s j = same_key j.queue j.state q s

-- A count of no rows is not told.
abbrev pub shown : ℕ → Option ℕ
shown zero = none
shown (suc n) = some (suc n)

one_more-shown : (n : ℕ) → one_more (shown n) ≡ suc n
one_more-shown zero = refl
one_more-shown (suc n) = omega arith

pub found-queue_stats :
    (q : String) (s : JobState) (t : List Job)
    → found q s (queue_stats t) ≡ shown (length (where_ (in_group q s) t))
unfolding queue_stats where_
found-queue_stats q s [] = refl
found-queue_stats q s (j ∷ t) = elim (Bool-cases (in_group q s j)) [
  | inr n ↦
      found-counted_other q j.queue s j.state (queue_stats t) n
      ∙ found-queue_stats q s t
      ∙ rw n refl
  | inl y ↦
      let (e, f) = same_key-eq j.queue q j.state s y in
      ap (λ x. found q s (counted x j.state (queue_stats t))) e
      ∙ ap (λ x. found q s (counted q x (queue_stats t))) f
      ∙ found-counted q s (queue_stats t)
      ∙ ap (λ o. some (one_more o)) (found-queue_stats q s t)
      ∙ ap some (one_more-shown (length (where_ (in_group q s) t)))
      ∙ rw y refl
]
