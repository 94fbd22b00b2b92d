-- ===== src/Client.antt =====
-- packages/core/src/client.ts: the client's calls around the statements.
pub mod Names
pub mod Build
pub mod Enqueue
pub mod Batch
pub mod Admin
pub mod Stats
use pgjobq.Base.{ℕ, Option}
use pgjobq.Table.{PgError}
use pgjobq.StateMachine.{InvalidTransition}

-- The classes of errors that the client throws, with the details that a caller may read.
pub data ClientError : Type 0 where
  validation_error : ClientError
  payload_too_large : ℕ → ℕ → ClientError
  conflict : Option ℕ → ClientError
  job_not_found : ℕ → ClientError
  invalid_transition : InvalidTransition → ClientError
  database_error : PgError → ClientError

pub data Answer {ℓ} (A : Type ℓ) : Type ℓ where
  returns : A → Answer A
  throws : ClientError → Answer A
