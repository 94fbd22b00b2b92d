-- ===== src/Client/Enqueue/Dedup.antt =====
-- Client.Enqueue: its answers, by the row that the conflict finds.
use pgjobq.Base.{
  ℕ, ◌+◌, ◌≡◌, refl, sym, ◌∙◌, ap, subst, inl, inr, String, Bool, true, false, ◌&&◌, Option, none,
  some, List, [], ◌∷◌, ◌++◌, arith, any, In, In-any, Bool-cases, str_eq,
}
use pgjobq.Types.{Job, is_active}
use pgjobq.Table.{Result, check_row, clash, key_eq}
use pgjobq.Table.Pairs.{str_eq_comm, key_eq_comm}
use pgjobq.Sql.Enqueue.{EnqueueRow, Jobs, new_job, find_by_idempotency_key, find_by_unique_key}
use pgjobq.Sql.Enqueue.Insert.{Inserts, refused, kept, added, insert_job-Inserts}
use pgjobq.Client.{conflict, Answer, returns, throws}
use pgjobq.Client.Enqueue.{
  EnqueueResult, Others, by_idempotency_key, by_unique_key, deduplicated_or, resolve_conflict,
  enqueue_row, insertion_answered,
}

-- The row holds the key of the queue.
abbrev pub holds_key : String → Option String → Job → Bool
holds_key q key j = str_eq j.queue q && key_eq j.idempotency_key key

abbrev pub holds_unique : String → Option String → Job → Bool
holds_unique q key j = str_eq j.queue q && key_eq j.unique_key key && is_active j.state

found_key :
    (q : String) (key : Option String) (t : List Job) (i : ℕ)
    → by_idempotency_key q key t ≡ some i
    → (j : Job) × In j t × (holds_key q key j ≡ true) × (j.id ≡ i)
unfolding find_by_idempotency_key
found_key q none t i h = cc
found_key q (some k) [] i h = cc
found_key q (some k) (j ∷ t) i h = elim (Bool-cases (holds_key q (some k) j)) [
  | inl y ↦ (j, inl refl, y, ground (arith, h))
  | inr n ↦ let (l, m, y, e) = found_key q (some k) t i (ground (arith, h)) in (l, inr m, y, e)
]

missed_key :
    (q : String) (key : Option String) (t : List Job) (j : Job)
    → by_idempotency_key q key t ≡ none
    → In j t
    → holds_key q key j ≡ false
unfolding find_by_idempotency_key
missed_key q none t j h m = ground arith
missed_key q (some k) [] j h m = absurd m
missed_key q (some k) (i ∷ t) j h (inl e) = rw e (ground arith)
missed_key q (some k) (i ∷ t) j h (inr m) = missed_key q (some k) t j (ground arith) m

found_unique :
    (q k : String) (t : List Job) (j : Job)
    → In j t
    → holds_unique q (some k) j ≡ true
    → (l : Job) × In l t
      × (holds_unique q (some k) l ≡ true)
      × (find_by_unique_key q k t ≡ some l.id)
unfolding find_by_unique_key
found_unique q k [] j m h = absurd m
found_unique q k (i ∷ t) j (inl e) h =
    let y : holds_unique q (some k) i ≡ true = ap (holds_unique q (some k)) (sym e) ∙ h in
    (i, inl refl, y, ground arith)
found_unique q k (i ∷ t) j (inr m) h = elim (Bool-cases (holds_unique q (some k) i)) [
  | inl y ↦ (i, inl refl, y, ground arith)
  | inr n ↦ let (l, r, y, e) = found_unique q k t j m h in (l, inr r, y, ground (arith, e))
]

-- Nobody else comes between the statements of the call.
abbrev pub alone : Others
alone n s = s

abbrev next_state : Jobs → Jobs
next_state s = record s { next_id = s.next_id + 1 }

-- The three ends of an enqueue.
pub data Enqueued (now : ℕ) (r : EnqueueRow) (s : Jobs) : Answer EnqueueResult × Jobs → Type 0 where
  -- A new job, and nobody had its keys.
  created :
      any (clash (new_job now s.next_id r)) s.rows ≡ false
      → Enqueued now r s (
        returns (record { id = s.next_id; deduplicated = false }),
        record { rows = s.rows ++ new_job now s.next_id r ∷ []; next_id = s.next_id + 1 },
      )
  -- The job that has the idempotency key.
  existing :
      (j : Job)
      → In j s.rows
      → holds_key r.queue r.idempotency_key j ≡ true
      → Enqueued now r s (returns (record { id = j.id; deduplicated = true }), next_state s)
  -- No job has the idempotency key, and an active job has the unique one.
  blocked :
      (j : Job)
      → ((k : Job) → In k s.rows → holds_key r.queue r.idempotency_key k ≡ false)
      → In j s.rows
      → holds_unique r.queue r.unique_key j ≡ true
      → Enqueued now r s (throws (conflict (some j.id)), next_state s)

clash-new :
    (now n : ℕ) (r : EnqueueRow) (j : Job)
    → clash (new_job now n r) j ≡ true
    → holds_key r.queue r.idempotency_key j ≡ false
    → holds_unique r.queue r.unique_key j ≡ true
unfolding clash new_job
clash-new now n r j h f = ground (
  arith,
  str_eq_comm r.queue j.queue,
  key_eq_comm r.idempotency_key j.idempotency_key,
  key_eq_comm r.unique_key j.unique_key,
)

blocked_by :
    (now : ℕ) (r : EnqueueRow) (s : Jobs) (j : Job) (u : Option String)
    → r.unique_key ≡ u
    → ((k : Job) → In k s.rows → holds_key r.queue r.idempotency_key k ≡ false)
    → In j s.rows
    → holds_unique r.queue u j ≡ true
    → Enqueued now r s (by_unique_key r.queue u s.rows, next_state s)
blocked_by now r s j none e out m h = absurd (ground arith)
blocked_by now r s j (some k) e out m h =
    let (l, n, y, q) = found_unique r.queue k s.rows j m h in
    subst (λ o. Enqueued now r s (throws (conflict o), next_state s)) (sym q)
      (blocked l out n (rw e y))

conflicted :
    (now : ℕ) (r : EnqueueRow) (s : Jobs) (o : Option ℕ)
    → by_idempotency_key r.queue r.idempotency_key s.rows ≡ o
    → any (clash (new_job now s.next_id r)) s.rows ≡ true
    → Enqueued now r s (deduplicated_or o (by_unique_key r.queue r.unique_key s.rows), next_state s)
conflicted now r s (some i) e c =
    let (j, m, y, q) = found_key r.queue r.idempotency_key s.rows i e in
    subst (λ n. Enqueued now r s (returns (record { id = n; deduplicated = true }), next_state s)) q
      (existing j m y)
conflicted now r s none e c =
    let (j, m, h) = In-any (clash (new_job now s.next_id r)) s.rows c in
    let out = λ (k : Job) (n : In k s.rows). missed_key r.queue r.idempotency_key s.rows k e n in
    blocked_by now r s j r.unique_key refl out m (clash-new now s.next_id r j h (out j m))

-- An enqueue of a row that passes the checks, the ranges of the columns included, when nobody comes between its statements: it makes the
-- job, or it returns the job that has the idempotency key, or no job has that key and it is refused
-- with the active job that has the unique key. It never fails for an unknown reason.
pub enqueue_row-Enqueued :
    (now : ℕ) (r : EnqueueRow) (s : Jobs)
    → check_row (new_job now s.next_id r) ≡ true
    → Enqueued now r s (enqueue_row alone now r.queue r s)
unfolding enqueue_row resolve_conflict
enqueue_row-Enqueued now r s c = go (insert_job-Inserts now r s)
  where
    go :
        {q : Result (Jobs × Option ℕ)}
        → Inserts now r s q
        → Enqueued now r s (insertion_answered alone r.queue r s q)
    go (refused n) = absurd (cc (c, n))
    go (kept _ y) = conflicted now r s _ refl y
    go (added _ f) = created f
