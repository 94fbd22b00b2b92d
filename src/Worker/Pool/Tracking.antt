-- ===== src/Worker/Pool/Tracking.antt =====
-- Worker.Pool: the in-flight map against the handlers that execute.
use pgjobq.Base.{
  ℕ, ◌+◌, ◌<◌, ◌≡◌, ◌≢◌, sym, ◌∙◌, ap, subst, refl, true, false, Option, none, some, List, [], ◌∷◌,
  ◌++◌, map, arith, inl, inr, Bool-cases, if_both, In, ◌==◌,
}
use pgjobq.Base.Keyed.{has_key, set_key, delete_key, set_key_new, has_key-delete_key}
use pgjobq.Types.{ClaimedJob}
use pgjobq.Worker.Runner.{RunOutcome}
use pgjobq.Worker.Pool.{
  Pool, PoolOptions, Event, starts, drains, asks, answers, settles, start, drain, spawn, spawn_all,
  settle, asked_by, ask, answer, answered, on_event, run_pool,
}

abbrev swap : ℕ × ℕ → ℕ × ℕ
swap (n, id) = (id, n)

-- No two runs share a number or a job, and none has the number n or a later one.
abbrev pub Apart : ℕ → List (ℕ × ℕ) → Type 0
Apart n [] = Unit {0}
Apart n ((m, id) ∷ l) =
    (m < n) × (has_key m l ≡ false) × (has_key id (map swap l) ≡ false) × Apart n l

-- The map's entries are the runs that execute.
pub record IsTracked (s : Pool) : Type 0 where
  pub entries : s.in_flight ≡ map swap s.live
  pub apart : Apart s.next_run s.live

delete_key_absent : (k : ℕ) (l : List (ℕ × ℕ)) → has_key k l ≡ false → delete_key k l ≡ l
unfolding delete_key has_key
delete_key_absent k [] h = refl
delete_key_absent k ((i, a) ∷ l) h = ground (arith, delete_key_absent k l)

has_key-In : (n id : ℕ) (l : List (ℕ × ℕ)) → In (n, id) l → has_key n l ≡ true
unfolding has_key
has_key-In n id [] m = absurd m
has_key-In n id (e ∷ l) (inl q) = ground (arith, ap (λ (x : ℕ × ℕ). x.0) q)
has_key-In n id ((i, a) ∷ l) (inr m) = ground (arith, has_key-In n id l m)

has_key-In_swap : (n id : ℕ) (l : List (ℕ × ℕ)) → In (n, id) l → has_key id (map swap l) ≡ true
unfolding has_key
has_key-In_swap n id [] m = absurd m
has_key-In_swap n id (e ∷ l) (inl q) = ground (arith, ap (λ (x : ℕ × ℕ). x.1) q)
has_key-In_swap n id ((i, a) ∷ l) (inr m) = ground (arith, has_key-In_swap n id l m)

-- The end of a run takes its own entry away.
delete-swap :
    (b n id : ℕ) (l : List (ℕ × ℕ))
    → Apart b l
    → In (n, id) l
    → delete_key id (map swap l) ≡ map swap (delete_key n l)
unfolding delete_key
delete-swap b n id [] r q = absurd q
delete-swap b n id ((m, i) ∷ l) (_, fm, fi, r) (inl q) =
    let e : m ≡ n = sym (ap (λ (x : ℕ × ℕ). x.0) q) in
    let f : i ≡ id = sym (ap (λ (x : ℕ × ℕ). x.1) q) in
    ground (arith, delete_key_absent n l, delete_key_absent id (map swap l))
delete-swap b n id ((m, i) ∷ l) (_, fm, fi, r) (inr q) =
    ground (arith, delete-swap b n id l r q, has_key-In n id l q, has_key-In_swap n id l q)

has_key-delete :
    (k n : ℕ) (l : List (ℕ × ℕ)) → has_key k l ≡ false → has_key k (delete_key n l) ≡ false
unfolding delete_key has_key
has_key-delete k n [] h = refl
has_key-delete k n ((i, a) ∷ l) h = ground (arith, has_key-delete k n l)

has_key-delete_swap :
    (k n : ℕ) (l : List (ℕ × ℕ))
    → has_key k (map swap l) ≡ false
    → has_key k (map swap (delete_key n l)) ≡ false
unfolding delete_key has_key
has_key-delete_swap k n [] h = refl
has_key-delete_swap k n ((i, a) ∷ l) h = ground (arith, has_key-delete_swap k n l)

delete-Apart : (b n : ℕ) (l : List (ℕ × ℕ)) → Apart b l → Apart b (delete_key n l)
unfolding delete_key
delete-Apart b n [] r = tt
delete-Apart b n ((m, i) ∷ l) (lt, fm, fi, r) = elim (Bool-cases (m == n)) [
  | inl y ↦ rw y (delete-Apart b n l r)
  | inr x ↦ rw x (lt, has_key-delete m n l fm, has_key-delete_swap i n l fi, delete-Apart b n l r)
]

has_key-append :
    (k : ℕ) (l : List (ℕ × ℕ)) (i a : ℕ)
    → has_key k l ≡ false
    → i ≢ k
    → has_key k (l ++ (i, a) ∷ []) ≡ false
unfolding has_key
has_key-append k [] i a h ne = ground (arith, ne)
has_key-append k ((m, c) ∷ l) i a h ne = ground (arith, has_key-append k l i a)

map-append : (l : List (ℕ × ℕ)) (e : ℕ × ℕ) → map swap (l ++ e ∷ []) ≡ map swap l ++ swap e ∷ []
map-append [] e = refl
map-append (x ∷ l) e = ap (◌∷◌ (swap x)) (map-append l e)

append-Apart :
    (n id : ℕ) (l : List (ℕ × ℕ))
    → Apart n l
    → has_key id (map swap l) ≡ false
    → Apart (n + 1) (l ++ (n, id) ∷ [])
unfolding has_key
append-Apart n id [] r f = (omega arith, refl, refl, tt)
append-Apart n id ((m, i) ∷ l) (lt, fm, fi, r) f = (
  omega arith,
  has_key-append m l n id fm (λ e. omega (arith, e)),
  subst (λ x. has_key i x ≡ false) (sym (map-append l (n, id)))
      (has_key-append i (map swap l) id n fi (λ e. ground arith)),
  append-Apart n id l r (ground arith),
)

-- The jobs of a claim are apart, and this pool has none of them in flight.
unfoldable pub Fresh : Pool → List ClaimedJob → Type 0
unfolding spawn
Fresh s [] = Unit {0}
Fresh s (job ∷ jobs) = (has_key job.id s.in_flight ≡ false) × Fresh (spawn s job) jobs

spawn_all-IsTracked :
    (s : Pool) (jobs : List ClaimedJob) → Fresh s jobs → IsTracked s → IsTracked (spawn_all s jobs)
unfolding spawn_all spawn Fresh
spawn_all-IsTracked s [] f h = h
spawn_all-IsTracked s (job ∷ jobs) (new, f) h = spawn_all-IsTracked (spawn s job) jobs f (record {
  entries =
      set_key_new job.id s.next_run s.in_flight new
      ∙ ap (λ (m : List (ℕ × ℕ)). m ++ (job.id, s.next_run) ∷ []) h.entries
      ∙ sym (map-append s.live (s.next_run, job.id));
  apart =
      append-Apart s.next_run job.id s.live h.apart
        (subst (λ m. has_key job.id m ≡ false) h.entries new);
})

abbrev FreshAnswer : ℕ → (ℕ → List ClaimedJob) → Pool → Option ℕ → Type 0
FreshAnswer loop claim s none = Unit {0}
FreshAnswer loop claim s (some n) = Fresh (record s { asked = delete_key loop s.asked }) (claim n)

-- Each claim's jobs are fresh, and what ends is a run that executes.
unfoldable pub Orderly : PoolOptions → List Event → Pool → Type 0
unfolding on_event start drain ask answer settle spawn_all asked_by Fresh delete_key
Orderly o [] s = Unit {0}
Orderly o (asks loop ∷ es) s = Orderly o es (ask o loop s)
Orderly o (answers loop claim ∷ es) s =
    FreshAnswer loop claim s (asked_by loop s.asked) × Orderly o es (answer loop claim s)
Orderly o (settles n id outcome ∷ es) s = In (n, id) s.live × Orderly o es (settle n id outcome s)
Orderly o (starts ∷ es) s = Orderly o es (start s)
Orderly o (drains ∷ es) s = Orderly o es (drain s)

answered-IsTracked :
    (loop : ℕ) (claim : ℕ → List ClaimedJob) (s : Pool) (limit : Option ℕ)
    → FreshAnswer loop claim s limit
    → IsTracked s
    → IsTracked (answered loop claim s limit)
unfolding spawn_all answered
answered-IsTracked loop claim s none f h = h
answered-IsTracked loop claim s (some n) f h =
    let s' : Pool = record s { asked = delete_key loop s.asked } in
    let after =
      spawn_all-IsTracked s' (claim n) f (record { entries = h.entries; apart = h.apart }) in
    record { entries = after.entries; apart = after.apart }

-- From a pool in which it holds, in a history in which no claim returns a job that this pool is
-- still running and only runs that execute come to an end: the in-flight map has one entry for
-- each handler that executes, and no other, so a slot is neither leaked nor lost.
pub run_pool-IsTracked :
    (o : PoolOptions) (es : List Event) (s : Pool)
    → Orderly o es s
    → IsTracked s
    → IsTracked (run_pool o es s)
unfolding run_pool on_event start drain settle ask answer Orderly
run_pool-IsTracked o [] s q h = h
run_pool-IsTracked o (starts ∷ es) s q h =
    run_pool-IsTracked o es (start s) q
      (if_both IsTracked s.running h (record { entries = h.entries; apart = h.apart }))
run_pool-IsTracked o (drains ∷ es) s q h =
    run_pool-IsTracked o es (drain s) q
      (if_both IsTracked s.running (record { entries = h.entries; apart = h.apart }) h)
run_pool-IsTracked o (asks loop ∷ es) s q h =
    run_pool-IsTracked o es (ask o loop s) q
      (if_both IsTracked _ (record { entries = h.entries; apart = h.apart }) h)
run_pool-IsTracked o (answers loop claim ∷ es) s q h =
    run_pool-IsTracked o es (answer loop claim s) q.1
      (answered-IsTracked loop claim s (asked_by loop s.asked) q.0 h)
run_pool-IsTracked o (settles n id outcome ∷ es) s q h =
    run_pool-IsTracked o es (settle n id outcome s) q.1 (record {
      entries = ap (delete_key id) h.entries ∙ delete-swap s.next_run n id s.live h.apart q.0;
      apart = delete-Apart s.next_run n s.live h.apart;
    })

has_key-append_last : (k a : ℕ) (l : List (ℕ × ℕ)) → has_key k (l ++ (k, a) ∷ []) ≡ true
unfolding has_key
has_key-append_last k a [] = ground arith
has_key-append_last k a ((i, c) ∷ l) = ground (arith, has_key-append_last k a l)

has_key-delete_other :
    (k n : ℕ) (l : List (ℕ × ℕ)) → k ≢ n → has_key k l ≡ true → has_key k (delete_key n l) ≡ true
unfolding has_key delete_key
has_key-delete_other k n [] ne h = h
has_key-delete_other k n ((i, a) ∷ l) ne h = ground (arith, has_key-delete_other k n l ne, ne)

-- If a job is claimed again while an earlier run n of it executes, the end of that run frees the
-- slot of the new one: the new run executes, and no entry of the in-flight map is for its job.
pub reclaimed_untracked :
    (s : Pool) (job : ClaimedJob) (n : ℕ) (outcome : Option RunOutcome)
    → In (n, job.id) s.live
    → n < s.next_run
    → (has_key s.next_run (settle n job.id outcome (spawn s job)).live ≡ true)
      × (has_key job.id (settle n job.id outcome (spawn s job)).in_flight ≡ false)
unfolding settle spawn
reclaimed_untracked s job n outcome m lt =
    (kept s.live, has_key-delete_key job.id (set_key job.id s.next_run s.in_flight))
  where
    kept :
        (l : List (ℕ × ℕ))
        → has_key s.next_run (delete_key n (l ++ (s.next_run, job.id) ∷ [])) ≡ true
    kept l =
        has_key-delete_other s.next_run n (l ++ (s.next_run, job.id) ∷ [])
          (λ e. omega (arith, lt, e)) (has_key-append_last s.next_run job.id l)
