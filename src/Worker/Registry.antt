-- ===== src/Worker/Registry.antt =====
-- packages/core/src/worker/registry.ts: the handlers of the job types.
pub mod Registered
pub mod Unfit
use Prim.Native.String
use pgjobq.Base.{
  String, Bool, true, false, Option, none, some, List, [], ◌∷◌, ◌++◌, str_eq, if◌then◌else◌,
}
use pgjobq.Errors.{ThrownKind, Thrown}

-- What `schema.parse` does: the parsed payload, or the texts of the Zod error that it throws.
pub data Parsed : Type 0 where
  fits : String → Parsed
  unfit : String → String → Parsed

-- A handler is what it throws on a parsed payload, if anything.
pub record Registration : Type 0 where
  pub type : String
  pub schema : String → Parsed
  pub handler : String → Option Thrown

-- `entries.get`, in the order of registration.
unfoldable pub get_entry : String → List Registration → Option Registration
get_entry type [] = none
get_entry type (r ∷ rs) =
    let rest = get_entry type rs in if str_eq r.type type then some r else rest

abbrev pub is_entry : Option Registration → Bool
is_entry none = false
is_entry (some r) = true

-- `has`
unfoldable pub has : String → List Registration → Bool
unfolding get_entry
has type rs = is_entry (get_entry type rs)

-- `register`; none is the error that the type is registered already.
unfoldable pub register : Registration → List Registration → Option (List Registration)
unfolding has
register r rs = if has r.type rs then none else some (rs ++ r ∷ [])

-- `NoHandlerError`, with the stack that the engine gives it.
abbrev pub no_handler_error : String → String → Thrown
no_handler_error stack type = record {
  kind = ThrownKind.no_handler;
  name = "NoHandlerError";
  message = String.◌++◌ (String.◌++◌ "No handler registered for job type '" type) "'";
  stack = stack;
}

abbrev pub zod_error : String → String → Thrown
zod_error message stack = record {
  kind = ThrownKind.zod_error;
  name = "ZodError";
  message = message;
  stack = stack;
}

abbrev pub parsed_run : Registration → Parsed → Option Thrown
parsed_run r (fits payload) = r.handler payload
parsed_run r (unfit message stack) = some (zod_error message stack)

abbrev pub entry_run : String → String → String → Option Registration → Option Thrown
entry_run stack type payload none = some (no_handler_error stack type)
entry_run stack type payload (some r) = parsed_run r (r.schema payload)

-- `run`: what it throws, if anything.
unfoldable pub run_handler : String → String → String → List Registration → Option Thrown
unfolding get_entry
run_handler stack type payload rs = entry_run stack type payload (get_entry type rs)
