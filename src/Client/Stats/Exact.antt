-- ===== src/Client/Stats/Exact.antt =====
-- Client.Stats: the counts that a caller reads, and the rows of the table.
use text.Mathlib.TextEquality.{eq_iff}
use pgjobq.Base.{
  ℕ, ◌≡◌, refl, sym, ap, ◌∙◌, subst, inl, inr, String, true, false, Option, none, some, List, [],
  ◌∷◌, any, arith, str_eq, where_, length, Bool-cases, if◌then◌else◌,
}
use pgjobq.Types.{Job, JobState}
use pgjobq.StateMachine.{state_eq}
use pgjobq.Client.Stats.{
  QueueStatsRow, is_group, queue_stats, is_inherited, Counts, set_count, set_own, told, told_all,
  stats, count_at, read_at,
}
use pgjobq.Client.Stats.Groups.{
  state_same, same_key-eq, found, Apart, queue_stats-Apart, in_group, shown, found-queue_stats,
}

states_apart :
    (a b s : JobState) → state_eq b a ≡ false → state_eq a s ≡ true → state_eq b s ≡ false
states_apart a b s k h = subst (λ x. state_eq b x ≡ false) (state_same a s h) k

queues_apart : (a b q : String) → str_eq b a ≡ false → str_eq a q ≡ true → str_eq b q ≡ false
queues_apart a b q k h = subst (λ x. str_eq b x ≡ false) ((eq_iff a q).0 h) k

count_at-set_count :
    (s a : JobState) (n : ℕ) (cs : Counts)
    → count_at s (set_count a n cs) ≡ (if state_eq a s then some n else count_at s cs)
unfolding count_at set_count
count_at-set_count s a n [] = refl
count_at-set_count s a n ((b, m) ∷ cs) = elim (Bool-cases (state_eq b a)) [
  | inl y ↦ let e = state_same b a y in rw (y, e) (ground arith)
  | inr k ↦ rw (k, count_at-set_count s a n cs) (ground (arith, states_apart a b s k))
]

read_at-set_own :
    (q : String) (s : JobState) (r : QueueStatsRow) (out : List (String × Counts))
    → read_at q s (set_own r out) ≡ (if is_group q s r then some r.count else read_at q s out)
unfolding read_at set_own count_at
read_at-set_own q s r [] = ground arith
read_at-set_own q s r ((p, cs) ∷ out) = elim (Bool-cases (str_eq p r.queue)) [
  | inl y ↦
      let e : r.queue ≡ p = sym ((eq_iff p r.queue).0 y) in
      rw (y, count_at-set_count s r.state r.count cs, e) (ground arith)
  | inr k ↦ rw (k, read_at-set_own q s r out) (ground (arith, queues_apart r.queue p q k))
]

own_name : (p q : String) → is_inherited p ≡ true → is_inherited q ≡ false → str_eq p q ≡ false
own_name p q y h = elim (Bool-cases (str_eq p q)) [
  | inr n ↦ n
  | inl e ↦ let same = ap is_inherited ((eq_iff p q).0 e) in cc (y, h, same)
]

inherited_name :
    (p q : String) → is_inherited p ≡ false → is_inherited q ≡ true → str_eq p q ≡ false
inherited_name p q n h = elim (Bool-cases (str_eq p q)) [
  | inr m ↦ m
  | inl e ↦ let same = ap is_inherited ((eq_iff p q).0 e) in cc (n, h, same)
]

-- One row told, read at a name that no object inherits.
read_at-told :
    (q : String) (s : JobState) (r : QueueStatsRow) (out : List (String × Counts))
    → is_inherited q ≡ false
    → read_at q s (told r out) ≡ (if is_group q s r then some r.count else read_at q s out)
unfolding told
read_at-told q s r out h = elim (Bool-cases (is_inherited r.queue)) [
  | inr n ↦ rw n (read_at-set_own q s r out)
  | inl y ↦ let no : str_eq r.queue q ≡ false = own_name r.queue q y h in rw (y, no) refl
]

-- And at one that they do.
read_at-told_inherited :
    (q : String) (s : JobState) (r : QueueStatsRow) (out : List (String × Counts))
    → is_inherited q ≡ true
    → read_at q s (told r out) ≡ read_at q s out
unfolding told
read_at-told_inherited q s r out h = elim (Bool-cases (is_inherited r.queue)) [
  | inl y ↦ rw y refl
  | inr n ↦
      let no : str_eq r.queue q ≡ false = inherited_name r.queue q n h in
      rw n (read_at-set_own q s r out ∙ rw no refl)
]

abbrev or_read : Option ℕ → Option ℕ → Option ℕ
or_read none o = o
or_read (some n) o = some n

or_read_none : (o : Option ℕ) → or_read o none ≡ o
or_read_none none = refl
or_read_none (some n) = refl

read_at-told_all :
    (q : String) (s : JobState) (rs : List QueueStatsRow) (out : List (String × Counts))
    → Apart rs
    → is_inherited q ≡ false
    → read_at q s (told_all rs out) ≡ or_read (found q s rs) (read_at q s out)
unfolding told_all
read_at-told_all q s [] out d h = refl
read_at-told_all q s (r ∷ rs) out (fresh, d) h =
    read_at-told_all q s rs (told r out) d h
    ∙ rw (read_at-told q s r out h) (elim (Bool-cases (is_group q s r)) [
      | inr n ↦ rw n refl
      | inl y ↦
          let (e, f) = same_key-eq r.queue q r.state s y in
          let none_left : found q s rs ≡ none = rw (← e, ← f) fresh in rw (y, none_left) refl
    ])

told_all_inherited :
    (q : String) (s : JobState) (rs : List QueueStatsRow) (out : List (String × Counts))
    → is_inherited q ≡ true
    → read_at q s (told_all rs out) ≡ read_at q s out
unfolding told_all
told_all_inherited q s [] out h = refl
told_all_inherited q s (r ∷ rs) out h =
    told_all_inherited q s rs (told r out) h ∙ read_at-told_inherited q s r out h

-- In a table with no queue `__proto__`: at a queue and a state, `queueStats` tells the number of the
-- table's jobs there, and nothing if there are none; but of a queue whose name every object of
-- JavaScript inherits, such as `constructor`, it tells nothing in any case.
pub stats-exact :
    (q : String) (s : JobState) (t : List Job)
    → any (λ j. str_eq j.queue "__proto__") t ≡ false
    → read_at q s (stats t)
      ≡ (if is_inherited q then none else shown (length (where_ (in_group q s) t)))
unfolding stats read_at
stats-exact q s t p = elim (Bool-cases (is_inherited q)) [
  | inl y ↦ rw y (told_all_inherited q s (queue_stats t) [] y)
  | inr n ↦ rw n (
      read_at-told_all q s (queue_stats t) [] (queue_stats-Apart t) n
      ∙ or_read_none (found q s (queue_stats t))
      ∙ found-queue_stats q s t)
]
