-- ===== src/Db.antt =====
-- packages/core/src/db.ts: the classes of database errors, the wait for the database at the start, and
-- transactions.
pub mod Waiting
pub mod Transaction
use Prim.Native.String.{String}
use Prim.Native.Nat.{◌^◌}
use pgjobq.Base.{
  ℕ, zero, suc, ◌+◌, ◌*◌, ◌-◌, min, Bool, true, false, ◌&&◌, ◌||◌, Option, none, some, List, [],
  ◌∷◌, any, leb, ◌==◌, str_eq, if◌then◌else◌,
}
use pgjobq.Base.Text.{lowered, contains}

-- A value thrown by the driver: its `code`, if it has one, and whether it is an Error, with its message.
pub record DriverError : Type 0 where
  pub code : Option String
  pub message : Option String

-- What a query throws: the driver's value as it is, or a `DatabaseError` around it; or the error of a pool
-- that was closed.
pub data QueryError : Type 0 where
  raw : DriverError → QueryError
  wrapped : DriverError → QueryError
  pool_closed : QueryError

abbrev pub code_is : String → Option String → Bool
code_is c none = false
code_is c (some d) = str_eq d c

-- `wrapDbError`
unfoldable pub wrap_db_error : DriverError → QueryError
wrap_db_error e = elim e.message [
  | none ↦ raw e
  | some m ↦ if code_is "23505" e.code then raw e else wrapped e
]

-- The alternatives of the pattern, in lower case.
abbrev pub connectivity_texts : List String
connectivity_texts =
    "econnrefused" ∷ "econnreset" ∷ "etimedout" ∷ "epipe" ∷ "ehostunreach" ∷ "enotfound"
    ∷ "terminating connection" ∷ []

abbrev pub message_transient : Option String → Bool
unfolding contains lowered
message_transient none = false
message_transient (some m) = any (λ w. contains (lowered w) (lowered m)) connectivity_texts

-- `isTransientDbError`
unfoldable pub is_transient_db_error : DriverError → Bool
unfolding contains lowered
is_transient_db_error e = elim e.code [
  | none ↦ message_transient e.message
  | some c ↦ str_eq c "40001" || str_eq c "40P01" || str_eq c "57P01" || str_eq c "57P03"
]

-- `isTransientDbError(unwrapCause(e))`; a closed pool says nothing of a connection.
unfoldable pub is_transient : QueryError → Bool
unfolding is_transient_db_error
is_transient (raw e) = is_transient_db_error e
is_transient (wrapped e) = is_transient_db_error e
is_transient pool_closed = false

-- `db.ping()`
pub data Ping : Type 0 where
  pong : Ping
  failed : QueryError → Ping

-- How the wait ends: connected, with an error that retrying cannot mend, or after the last attempt; and
-- the delays before the jitter, in order.
pub data Waited : Type 0 where
  connected : Waited
  cannot_connect : QueryError → Waited
  unreachable : QueryError → Waited

pub record Wait : Type 0 where
  pub result : Waited
  pub pings : ℕ
  pub delays : List ℕ

unfoldable pub retry_delay : ℕ → ℕ → ℕ → ℕ
retry_delay initial_ms max_ms attempt = min max_ms (initial_ms * 2 ^ (attempt - 1))

abbrev pub slept : ℕ → Wait → Wait
slept delay w = record { result = w.result; pings = suc w.pings; delays = delay ∷ w.delays }

abbrev pub ended : Waited → Wait
ended r = record { result = r; pings = 1; delays = [] }

-- What is made of the last attempt, and of one before it.
abbrev pub on_last : Ping → Wait
unfolding is_transient
on_last pong = ended connected
on_last (failed e) = ended (if is_transient e then unreachable e else cannot_connect e)

abbrev pub on_ping : Ping → Wait → Wait
unfolding is_transient
on_ping pong rest = ended connected
on_ping (failed e) rest = if is_transient e then rest else ended (cannot_connect e)

-- The loop of `waitForDatabase` from an attempt on, with as many attempts left after it. `ping n` is
-- what the n-th attempt meets.
module _ (initial_ms max_ms : ℕ) (ping : ℕ → Ping) where
  unfoldable pub wait_from : ℕ → ℕ → Wait
  unfolding is_transient retry_delay
  wait_from zero attempt = on_last (ping attempt)
  wait_from (suc left) attempt =
      let rest = slept (retry_delay initial_ms max_ms attempt) (wait_from left (suc attempt)) in
      on_ping (ping attempt) rest

  -- `waitForDatabase` with at least one attempt.
  unfoldable pub wait_for_database : ℕ → Wait
  unfolding wait_from
  wait_for_database max_attempts = wait_from (max_attempts - 1) 1
