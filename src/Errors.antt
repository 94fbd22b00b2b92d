-- ===== src/Errors.antt =====
-- packages/core/src/errors.ts: what a handler may throw, and what is recorded of it.
use pgjobq.Base.{ℕ, String, Bool, true, false, some}
use pgjobq.Types.{JobErrorRecord, ErrorKind}

-- The classes that `instanceof` tells apart, a Zod error, and any other value.
pub data ThrownKind : Type 0 where
  ownership_lost job_cancelled handler_timeout non_retryable no_handler zod_error other : ThrownKind
  retry_after : ℕ → ThrownKind

-- A thrown value, with the texts that `normalizeError` reads off it.
pub record Thrown : Type 0 where
  pub kind : ThrownKind
  pub name : String
  pub message : String
  pub stack : String

-- `isNonRetryable`
unfoldable pub is_non_retryable : ThrownKind → Bool
is_non_retryable ThrownKind.non_retryable = true
is_non_retryable _ = false

-- `normalizeError` with the worker's name added; `truncate` cuts at a length in bytes.
unfoldable pub normalize_error :
    (ℕ → String → String) → Thrown → ℕ → ErrorKind → ℕ → ℕ → String → JobErrorRecord
normalize_error truncate e attempt kind max_text_bytes now worker_id = record {
  attempt = attempt;
  at = now;
  kind = kind;
  name = some (truncate 256 e.name);
  message = some (truncate max_text_bytes e.message);
  stack = some (truncate max_text_bytes e.stack);
  worker_id = some worker_id;
}
