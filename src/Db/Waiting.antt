-- ===== src/Db/Waiting.antt =====
-- Db: how the wait for the database ends.
use pgjobq.Base.{
  ℕ, zero, suc, ◌+◌, ◌-◌, ◌≤◌, ◌<◌, ◌≡◌, refl, subst, ◌⊎◌, inl, inr, Bool, true, false, arith,
  length, All, Bool-cases, String, Option, some,
}
use pgjobq.Db.{
  wrapped, is_transient_db_error, QueryError, Ping, pong, failed, is_transient, Waited, connected,
  cannot_connect, unreachable, Wait, retry_delay, slept, ended, on_last, on_ping, wait_from,
  wait_for_database,
}

-- An attempt that a transient error ended.
abbrev pub Missed : Ping → Type 0
Missed pong = ⊥
Missed (failed e) = is_transient e ≡ true

-- The last attempt, and the result that it stands for.
abbrev pub EndsBy : Ping → Waited → Type 0
EndsBy pong connected = Unit {0}
EndsBy (failed e) (cannot_connect f) = (e ≡ f) × (is_transient e ≡ false)
EndsBy (failed e) (unreachable f) = (e ≡ f) × (is_transient e ≡ true)
EndsBy _ _ = ⊥

abbrev pub is_unreachable : Waited → Bool
is_unreachable (unreachable e) = true
is_unreachable _ = false

module _ (initial_ms max_ms : ℕ) (ping : ℕ → Ping) where
  -- A wait from an attempt on, with that many attempts left after it.
  pub record WaitsFrom (left attempt : ℕ) (w : Wait) : Type 0 where
    pub some_pings : 1 ≤ w.pings
    pub within : w.pings ≤ suc left
    pub sleeps : suc (length w.delays) ≡ w.pings
    pub bounded : All (λ d. d ≤ max_ms) w.delays
    pub missed : (i : ℕ) → suc i < w.pings → Missed (ping (attempt + i))
    pub last : EndsBy (ping (attempt + (w.pings - 1))) w.result
    pub whole : (is_unreachable w.result ≡ false) ⊎ (w.pings ≡ suc left)

  one_ping :
      (left attempt : ℕ) (r : Waited)
      → EndsBy (ping attempt) r
      → (is_unreachable r ≡ false) ⊎ (1 ≡ suc left)
      → WaitsFrom left attempt (ended r)
  one_ping left attempt r e u = record {
    some_pings = omega arith;
    within = omega arith;
    sleeps = refl;
    bounded = tt;
    missed = λ i h. absurd (omega (arith, h));
    last = (let here : attempt + (1 - 1) ≡ attempt = omega arith in rw here e);
    whole = u;
  }

  delay-le : (attempt : ℕ) → retry_delay initial_ms max_ms attempt ≤ max_ms
  unfolding retry_delay
  delay-le attempt = omega arith

  one_more :
      (left attempt : ℕ) (w : Wait)
      → Missed (ping attempt)
      → WaitsFrom left (suc attempt) w
      → WaitsFrom (suc left) attempt (slept (retry_delay initial_ms max_ms attempt) w)
  one_more left attempt w m s = record {
    some_pings = omega arith;
    within = omega (arith, s.within);
    sleeps = omega (arith, s.sleeps);
    bounded = (delay-le attempt, s.bounded);
    missed = earlier;
    last =
        (let here : attempt + (suc w.pings - 1) ≡ suc attempt + (w.pings - 1) =
            omega (arith, s.some_pings) in
          rw here s.last);
    whole = elim s.whole [ inl n ↦ inl n | inr e ↦ inr (omega (arith, e)) ];
  }
    where
      earlier : (i : ℕ) → suc i < suc w.pings → Missed (ping (attempt + i))
      earlier zero h = let here : attempt + 0 ≡ attempt = omega arith in rw here m
      earlier (suc i) h =
          let here : attempt + suc i ≡ suc attempt + i = omega arith in
          rw here (s.missed i (omega (arith, h)))

  last-WaitsFrom : (attempt : ℕ) (p : Ping) → p ≡ ping attempt → WaitsFrom zero attempt (on_last p)
  unfolding is_transient
  last-WaitsFrom attempt pong e =
      one_ping zero attempt connected (subst (λ p. EndsBy p connected) e tt) (inl refl)
  last-WaitsFrom attempt (failed f) e = elim (Bool-cases (is_transient f)) [
    | inl y ↦ rw y (
        one_ping zero attempt (unreachable f) (subst (λ p. EndsBy p (unreachable f)) e (refl, y))
          (inr refl))
    | inr n ↦ rw n (
        one_ping zero attempt (cannot_connect f)
          (subst (λ p. EndsBy p (cannot_connect f)) e (refl, n)) (inl refl))
  ]

  ping-WaitsFrom :
      (left attempt : ℕ) (p : Ping) (w : Wait)
      → p ≡ ping attempt
      → WaitsFrom left (suc attempt) w
      → WaitsFrom (suc left) attempt (on_ping p (slept (retry_delay initial_ms max_ms attempt) w))
  unfolding is_transient
  ping-WaitsFrom left attempt pong w e s =
      one_ping (suc left) attempt connected (subst (λ p. EndsBy p connected) e tt) (inl refl)
  ping-WaitsFrom left attempt (failed f) w e s = elim (Bool-cases (is_transient f)) [
    | inl y ↦ rw y (one_more left attempt w (subst Missed e y) s)
    | inr n ↦ rw n (
        one_ping (suc left) attempt (cannot_connect f)
          (subst (λ p. EndsBy p (cannot_connect f)) e (refl, n)) (inl refl))
  ]

  wait_from-WaitsFrom :
      (left attempt : ℕ) → WaitsFrom left attempt (wait_from initial_ms max_ms ping left attempt)
  unfolding wait_from
  wait_from-WaitsFrom zero attempt = last-WaitsFrom attempt (ping attempt) refl
  wait_from-WaitsFrom (suc left) attempt =
      ping-WaitsFrom left attempt (ping attempt)
        (wait_from initial_ms max_ms ping left (suc attempt)) refl
        (wait_from-WaitsFrom left (suc attempt))

abbrev pub refused : Option String → QueryError
refused message = wrapped (record { code = some "ECONNREFUSED"; message = message })

-- With at least one attempt allowed, the wait for the database ends: after at most that many attempts,
-- with a sleep of at most the cap between two of them. Every attempt but the last met a transient error;
-- the last one met the database, or an error that is not transient, or the wait used up all its
-- attempts. A refused connection, whose error from Node has the code `ECONNREFUSED`, is not transient,
-- whatever its message says.
pub wait_for_database-WaitsFrom :
    (initial_ms max_ms : ℕ) (ping : ℕ → Ping) (max_attempts : ℕ)
    → 1 ≤ max_attempts
    → WaitsFrom initial_ms max_ms ping
        (max_attempts - 1)
        1
        (wait_for_database initial_ms max_ms ping max_attempts)
      × ((message : Option String) → is_transient (refused message) ≡ false)
unfolding wait_for_database is_transient is_transient_db_error
wait_for_database-WaitsFrom initial_ms max_ms ping max_attempts h =
    (wait_from-WaitsFrom initial_ms max_ms ping (max_attempts - 1) 1, λ message. refl)

on_ping-refused :
    (p : Ping) (rest : Wait) (message : Option String)
    → p ≡ failed (refused message)
    → (on_ping p rest ≡ ended (cannot_connect (refused message)))
      × (on_last p ≡ ended (cannot_connect (refused message)))
unfolding on_ping on_last is_transient is_transient_db_error
on_ping-refused p rest message e = (rw e refl, rw e refl)

wait_from-refused :
    (initial_ms max_ms : ℕ) (ping : ℕ → Ping) (left : ℕ) (message : Option String)
    → ping 1 ≡ failed (refused message)
    → wait_from initial_ms max_ms ping left 1 ≡ ended (cannot_connect (refused message))
unfolding wait_from
wait_from-refused initial_ms max_ms ping zero message e =
    (on_ping-refused (ping 1) (ended connected) message e).1
wait_from-refused initial_ms max_ms ping (suc left) message e =
    (on_ping-refused (ping 1) _ message e).0

-- A refused connection, whose error from Node has the code `ECONNREFUSED`, ends the wait at once, whatever
-- its message says and however many attempts are allowed.
pub refused_connection_ends :
    (initial_ms max_ms : ℕ) (ping : ℕ → Ping) (max_attempts : ℕ) (message : Option String)
    → ping 1 ≡ failed (refused message)
    → wait_for_database initial_ms max_ms ping max_attempts
      ≡ ended (cannot_connect (refused message))
unfolding wait_for_database
refused_connection_ends initial_ms max_ms ping max_attempts message e =
    wait_from-refused initial_ms max_ms ping (max_attempts - 1) message e
