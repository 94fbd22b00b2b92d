-- ===== src/Config/Problems.antt =====
-- Config: the problems that `validateCrossField` tells.
use pgjobq.Base.{
  ◌*◌, ◌≤◌, ◌<◌, ◌≡◌, refl, sym, subst, ◌⊎◌, inl, inr, String, Bool, true, false, Option, none,
  some, List, [], arith, ltb, leb, ◌==◌, ==_iff, In, Bool-cases,
}
use pgjobq.Base.Text.{utf16_length}
use pgjobq.Config.{
  NodeEnv, development, test, production, Config, Range, ranges, Problem, pool_min_above_max,
  backoff_initial_above_max, concurrency_above_pool, heartbeat_after_lease, key_missing, key_short,
  key_placeholder, payloads_logged, is_placeholder, told_if, key_problems, production_problems,
  lease_ms, validate_cross_field,
}

abbrev pub IsMissing : Option String → Type 0
IsMissing none = Unit {0}
IsMissing (some key) = utf16_length key ≡ 0

abbrev pub IsShort : Option String → Type 0
IsShort none = ⊥
IsShort (some key) = (0 < utf16_length key) × (utf16_length key < 32)

abbrev pub LooksMade : Option String → Type 0
LooksMade none = ⊥
LooksMade (some key) = (32 ≤ utf16_length key) × (is_placeholder key ≡ true)

-- The settings have this problem.
abbrev pub Violates : Config → Problem → Type 0
Violates c pool_min_above_max = c.db_pool_max < c.db_pool_min
Violates c backoff_initial_above_max = c.backoff_max_ms < c.backoff_initial_ms
Violates c concurrency_above_pool = 10 * c.db_pool_max < c.worker_concurrency
Violates c heartbeat_after_lease = ⊥
Violates c key_missing = (c.node_env ≡ production) × IsMissing c.api_bootstrap_key
Violates c key_short = (c.node_env ≡ production) × IsShort c.api_bootstrap_key
Violates c key_placeholder = (c.node_env ≡ production) × LooksMade c.api_bootstrap_key
Violates c payloads_logged = (c.node_env ≡ production) × (c.log_payloads ≡ true)

-- The bounds of each number, and a heartbeat before the lease is over.
pub record IsBounded (c : Config) : Type 0 where
  pub within : (r : Range) → In r (ranges c) → (r.low ≤ r.value) × (r.value ≤ r.high)
  pub beats :
      lease_ms c * c.worker_heartbeat_fraction.numerator
      < lease_ms c * c.worker_heartbeat_fraction.denominator

told_if-found :
    (b : Bool) (p q : Problem) (rest : List Problem)
    → In q (told_if b p rest)
    → ((b ≡ true) × (q ≡ p)) ⊎ In q rest
told_if-found true p q rest (inl e) = inl (refl, e)
told_if-found true p q rest (inr m) = inr m
told_if-found false p q rest m = inr m

told_if-here : (b : Bool) (p : Problem) (rest : List Problem) → b ≡ true → In p (told_if b p rest)
told_if-here b p rest h = rw h (inl refl)

told_if-later :
    (b : Bool) (p q : Problem) (rest : List Problem) → In q rest → In q (told_if b p rest)
told_if-later true p q rest m = inr m
told_if-later false p q rest m = m

key_problems-found :
    (key : Option String) (p : Problem) (rest : List Problem)
    → In p (key_problems key rest)
    → ((p ≡ key_missing) × IsMissing key)
      ⊎ ((p ≡ key_short) × IsShort key)
      ⊎ ((p ≡ key_placeholder) × LooksMade key)
      ⊎ In p rest
unfolding key_problems
key_problems-found none p rest (inl e) = inl (e, tt)
key_problems-found none p rest (inr m) = inr (inr (inr m))
key_problems-found (some key) p rest m = elim (Bool-cases (utf16_length key == 0)) [
  | inl y ↦ elim (rw y at m) [
    | inl e ↦ inl (e, (==_iff (utf16_length key) 0).0 y)
    | inr x ↦ inr (inr (inr x))
  ]
  | inr n ↦ elim (Bool-cases (ltb (utf16_length key) 32)) [
    | inl s ↦ elim (rw (n, s) at m) [
      | inl e ↦ inr (inl (e, (ground (arith, n), ground (arith, s))))
      | inr x ↦ inr (inr (inr x))
    ]
    | inr l ↦ elim (told_if-found (is_placeholder key) key_placeholder p rest (rw (n, l) at m)) [
      | inl (made, e) ↦ inr (inr (inl (e, (ground (arith, l), made))))
      | inr x ↦ inr (inr (inr x))
    ]
  ]
]

production-found :
    (c : Config) (env : NodeEnv) (p : Problem)
    → c.node_env ≡ env
    → In p (production_problems env c.api_bootstrap_key c.log_payloads)
    → Violates c p
unfolding production_problems
production-found c development p e m = absurd m
production-found c test p e m = absurd m
production-found c production p e m =
    elim (key_problems-found c.api_bootstrap_key p (told_if c.log_payloads payloads_logged []) m) [
      | inl (q, h) ↦ subst (Violates c) (sym q) (e, h)
      | inr (inl (q, h)) ↦ subst (Violates c) (sym q) (e, h)
      | inr (inr (inl (q, h))) ↦ subst (Violates c) (sym q) (e, h)
      | inr (inr (inr l)) ↦ elim (told_if-found c.log_payloads payloads_logged p [] l) [
        | inl (h, q) ↦ subst (Violates c) (sym q) (e, h)
        | inr x ↦ absurd x
      ]
    ]

-- A problem that is told comes from one test or from those after it.
from_test :
    (c : Config) (b : Bool) (p q : Problem) (rest : List Problem)
    → (b ≡ true → Violates c p)
    → (In q rest → Violates c q)
    → In q (told_if b p rest)
    → Violates c q
from_test c b p q rest here later m = elim (told_if-found b p q rest m) [
  | inl (h, e) ↦ subst (Violates c) (sym e) (here h)
  | inr r ↦ later r
]

-- The four tests of any environment, with what is told after each.
abbrev pool_test : Config → Bool
pool_test c = ltb c.db_pool_max c.db_pool_min

abbrev delay_test : Config → Bool
delay_test c = ltb c.backoff_max_ms c.backoff_initial_ms

abbrev concurrency_test : Config → Bool
concurrency_test c = ltb (c.db_pool_max * 10) c.worker_concurrency

abbrev heartbeat_test : Config → Bool
heartbeat_test c =
    leb (lease_ms c * c.worker_heartbeat_fraction.denominator)
      (lease_ms c * c.worker_heartbeat_fraction.numerator)

abbrev of_production : Config → List Problem
of_production c = production_problems c.node_env c.api_bootstrap_key c.log_payloads

abbrev from_heartbeat : Config → List Problem
from_heartbeat c = told_if (heartbeat_test c) heartbeat_after_lease (of_production c)

abbrev from_concurrency : Config → List Problem
from_concurrency c = told_if (concurrency_test c) concurrency_above_pool (from_heartbeat c)

abbrev from_delays : Config → List Problem
from_delays c = told_if (delay_test c) backoff_initial_above_max (from_concurrency c)

-- Each problem that is told is there, if the heartbeat is before the end of the lease.
pub told-Violates :
    (c : Config) (p : Problem) → IsBounded c → In p (validate_cross_field c) → Violates c p
unfolding validate_cross_field
told-Violates c p b =
    from_test c (pool_test c) pool_min_above_max p (from_delays c) (λ h. ground (arith, h))
      (from_test c (delay_test c) backoff_initial_above_max p (from_concurrency c)
        (λ h. ground (arith, h))
        (from_test c (concurrency_test c) concurrency_above_pool p (from_heartbeat c)
          (λ h. ground (arith, h))
          (from_test c (heartbeat_test c) heartbeat_after_lease p (of_production c)
            (λ h. ground (arith, h, b.beats)) (production-found c c.node_env p refl))))

missing-told :
    (key : Option String) (rest : List Problem)
    → IsMissing key
    → In key_missing (key_problems key rest)
unfolding key_problems
missing-told none rest h = inl refl
missing-told (some key) rest h = rw h (inl refl)

short-told :
    (key : Option String) (rest : List Problem) → IsShort key → In key_short (key_problems key rest)
unfolding key_problems
short-told none rest h = absurd h
short-told (some key) rest (a, b) =
    let n : (utf16_length key == 0) ≡ false = ground (arith, a) in
    let s : ltb (utf16_length key) 32 ≡ true = ground (arith, b) in rw (n, s) (inl refl)

made-told :
    (key : Option String) (rest : List Problem)
    → LooksMade key
    → In key_placeholder (key_problems key rest)
unfolding key_problems
made-told none rest h = absurd h
made-told (some key) rest (a, b) =
    let n : (utf16_length key == 0) ≡ false = ground (arith, a) in
    let s : ltb (utf16_length key) 32 ≡ false = ground (arith, a) in rw (n, s, b) (inl refl)

key_problems-later :
    (key : Option String) (p : Problem) (rest : List Problem)
    → In p rest
    → In p (key_problems key rest)
unfolding key_problems
key_problems-later none p rest m = inr m
key_problems-later (some key) p rest m = elim (Bool-cases (utf16_length key == 0)) [
  | inl y ↦ rw y (inr m)
  | inr n ↦ elim (Bool-cases (ltb (utf16_length key) 32)) [
    | inl s ↦ rw (n, s) (inr m)
    | inr l ↦ rw (n, l) (told_if-later (is_placeholder key) key_placeholder p rest m)
  ]
]

-- A problem of production is told after the others.
in_production :
    (c : Config) (p : Problem)
    → c.node_env ≡ production
    → In p (key_problems c.api_bootstrap_key (told_if c.log_payloads payloads_logged []))
    → In p (validate_cross_field c)
unfolding validate_cross_field production_problems
in_production c p e m = told_if-later (pool_test c) pool_min_above_max p (from_delays c) (
    told_if-later (delay_test c) backoff_initial_above_max p (from_concurrency c) (
      told_if-later (concurrency_test c) concurrency_above_pool p (from_heartbeat c)
        (told_if-later (heartbeat_test c) heartbeat_after_lease p (of_production c) (rw e m))))

pub Violates-told : (c : Config) (p : Problem) → Violates c p → In p (validate_cross_field c)
unfolding validate_cross_field
Violates-told c pool_min_above_max h =
    told_if-here (pool_test c) pool_min_above_max (from_delays c) (ground (arith, h))
Violates-told c backoff_initial_above_max h =
    told_if-later (pool_test c) pool_min_above_max backoff_initial_above_max (from_delays c) (
      told_if-here (delay_test c) backoff_initial_above_max (from_concurrency c)
        (ground (arith, h)))
Violates-told c concurrency_above_pool h =
    told_if-later (pool_test c) pool_min_above_max concurrency_above_pool (from_delays c) (
      told_if-later (delay_test c) backoff_initial_above_max concurrency_above_pool
        (from_concurrency c)
        (told_if-here (concurrency_test c) concurrency_above_pool (from_heartbeat c)
          (ground (arith, h))))
Violates-told c heartbeat_after_lease h = absurd h
Violates-told c key_missing (e, h) = in_production c key_missing e (missing-told _ _ h)
Violates-told c key_short (e, h) = in_production c key_short e (short-told _ _ h)
Violates-told c key_placeholder (e, h) = in_production c key_placeholder e (made-told _ _ h)
Violates-told c payloads_logged (e, h) = in_production c payloads_logged e (
    key_problems-later c.api_bootstrap_key payloads_logged
      (told_if c.log_payloads payloads_logged [])
      (told_if-here c.log_payloads payloads_logged [] h))
