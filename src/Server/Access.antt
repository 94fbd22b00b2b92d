-- ===== src/Server/Access.antt =====
-- packages/server/src/middleware.ts: `requireAuth` and `requireScope`.
use pgjobq.Base.{ℕ, String, Option, none, some, List, if◌then◌else◌}
use pgjobq.Base.Text.{starts_with, slice_from, trim}
use pgjobq.Server.Auth.{Scope, ApiKeyRow, ApiKeyRecord, authenticate, authorizes}
use pgjobq.Server.Reply.{ErrorReply, unauthenticated, forbidden}

-- A middleware answers the request itself, or lets it go on.
pub data Gate {ℓ} (A : Type ℓ) : Type ℓ where
  denies : ErrorReply → Gate A
  passes : A → Gate A

infixl 5 ◌>>=◌
abbrev pub ◌>>=◌ {ℓ κ} : {A : Type ℓ} {B : Type κ} → Gate A → (A → Gate B) → Gate B
denies r >>= k = denies r
passes a >>= k = k a

abbrev pub no_key : ErrorReply
no_key = record {
  status = 401;
  code = unauthenticated;
  message = "Provide an API key as: Authorization: Bearer <key>";
  details = none;
}

abbrev pub bad_key : ErrorReply
bad_key = record {
  status = 401;
  code = unauthenticated;
  message = "Invalid or expired API key";
  details = none;
}

-- Its message names the scope and the queue asked for.
abbrev pub lacks_scope : String → ErrorReply
lacks_scope message = record { status = 403; code = forbidden; message = message; details = none }

abbrev pub known_key : Option ApiKeyRecord → Gate ApiKeyRecord
known_key none = denies bad_key
known_key (some k) = passes k

-- The key that a header presents.
abbrev pub presented_key : Option String → Option String
presented_key none = none
presented_key (some header) =
    if starts_with "Bearer " header then some (trim (slice_from 7 header)) else none

module _ (hash_key : String → String) (now : ℕ) (rows : List ApiKeyRow) where
  abbrev pub key_checked : Option String → Gate ApiKeyRecord
  key_checked none = denies no_key
  key_checked (some key) = known_key (authenticate hash_key now key rows)

  -- `requireAuth`
  unfoldable pub require_auth : Option String → Gate ApiKeyRecord
  require_auth header = key_checked (presented_key header)

-- `requireScope`, after `requireAuth`.
unfoldable pub require_scope :
    (Scope → Option String → String) → Scope → Option String → ApiKeyRecord → Gate ApiKeyRecord
unfolding authorizes
require_scope message scope queue k =
    if authorizes k scope queue then passes k else denies (lacks_scope (message scope queue))
