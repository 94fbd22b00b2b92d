-- ===== src/Server/Reply.antt =====
-- packages/server/src/middleware.ts: error codes, their statuses, and the one error handler.
pub mod Hiding
use pgjobq.Base.{
  ℕ, String, Bool, true, false, ◌||◌, Option, none, some, List, ltb, leb, if◌then◌else◌,
}

-- `ERROR_CODES`
pub data ErrorCode : Type 0 where
  validation_error payload_too_large job_not_found schedule_not_found : ErrorCode
  invalid_transition ownership_lost no_handler handler_timeout : ErrorCode
  non_retryable cancelled config_error migration_error database_error : ErrorCode
  unauthenticated forbidden rate_limited not_ready conflict internal : ErrorCode

-- `STATUS_BY_CODE`
unfoldable pub status_by_code : ErrorCode → ℕ
status_by_code validation_error = 400
status_by_code payload_too_large = 413
status_by_code job_not_found = 404
status_by_code schedule_not_found = 404
status_by_code invalid_transition = 409
status_by_code conflict = 409
status_by_code ownership_lost = 409
status_by_code no_handler = 422
status_by_code handler_timeout = 504
status_by_code non_retryable = 422
status_by_code cancelled = 409
status_by_code config_error = 500
status_by_code migration_error = 503
status_by_code database_error = 503
status_by_code unauthenticated = 401
status_by_code forbidden = 403
status_by_code rate_limited = 429
status_by_code not_ready = 503
status_by_code internal = 500

-- The classes of errors.ts.
pub data ErrorClass : Type 0 where
  validation payload_size missing_job missing_schedule transition lost_ownership : ErrorClass
  missing_handler timed_out not_retryable cancelled_job config migration database : ErrorClass
  conflicting retry_after : ErrorClass

-- `code`
unfoldable pub class_code : ErrorClass → ErrorCode
class_code validation = validation_error
class_code payload_size = payload_too_large
class_code missing_job = job_not_found
class_code missing_schedule = schedule_not_found
class_code transition = invalid_transition
class_code lost_ownership = ownership_lost
class_code missing_handler = no_handler
class_code timed_out = handler_timeout
class_code not_retryable = non_retryable
class_code cancelled_job = cancelled
class_code config = config_error
class_code migration = migration_error
class_code database = database_error
class_code conflicting = conflict
class_code retry_after = non_retryable

-- `exposeDetails`
unfoldable pub expose_details : ErrorClass → Bool
expose_details validation = true
expose_details payload_size = true
expose_details missing_job = true
expose_details missing_schedule = true
expose_details transition = true
expose_details conflicting = true
expose_details _ = false

pub record DomainError : Type 0 where
  pub class : ErrorClass
  pub message : String
  pub details : Option String

-- What reaches the handler: an error of the library, a Zod error with its problems, the two errors of
-- the body parser, or anything else.
pub data Raised : Type 0 where
  zod_error : String → Raised
  domain : DomainError → Raised
  entity_too_large bad_json : Raised
  unknown_error : String → Raised

-- The body `{ error: … }` with its status.
pub record ErrorReply : Type 0 where
  pub status : ℕ
  pub code : ErrorCode
  pub message : String
  pub details : Option String

abbrev pub internal_message : String
internal_message = "The server encountered an internal error"

unfoldable pub class_reply : ErrorClass → String → Option String → ErrorReply
unfolding status_by_code class_code expose_details
class_reply c message details =
    let status = status_by_code (class_code c) in
    record {
      status = status;
      code = class_code c;
      message = if expose_details c || ltb status 500 then message else internal_message;
      details = if expose_details c then details else none;
    }

abbrev pub domain_reply : DomainError → ErrorReply
unfolding class_reply
domain_reply e = class_reply e.class e.message e.details

-- `errorHandler`, where the headers were not sent yet.
unfoldable pub error_handler : Raised → ErrorReply
unfolding class_reply
error_handler (zod_error problems) = record {
  status = 400;
  code = validation_error;
  message = "Request validation failed";
  details = some problems;
}
error_handler (domain e) = domain_reply e
error_handler entity_too_large = record {
  status = 413;
  code = payload_too_large;
  message = "Request body exceeds the configured limit";
  details = none;
}
error_handler bad_json = record {
  status = 400;
  code = validation_error;
  message = "Request body is not valid JSON";
  details = none;
}
error_handler (unknown_error text) = record {
  status = 500;
  code = internal;
  message = internal_message;
  details = none;
}
