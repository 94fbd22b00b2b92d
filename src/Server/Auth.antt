-- ===== src/Server/Auth.antt =====
-- packages/server/src/auth.ts: the table `api_key`, and the authenticator over it.
pub mod Keys
use pgjobq.Base.{
  ℕ, suc, ◌+◌, String, Bool, true, false, ◌&&◌, not, Option, none, some, List, [], ◌∷◌, ◌++◌, map,
  where_, any, all, leb, ◌==◌, str_eq, length, if◌then◌else◌,
}
use pgjobq.Base.Text.{starts_with, slice_to}

-- `SCOPES`
pub data Scope : Type 0 where
  enqueue read admin : Scope

abbrev pub scope_eq : Scope → Scope → Bool
scope_eq enqueue enqueue = true
scope_eq read read = true
scope_eq admin admin = true
scope_eq _ _ = false

abbrev pub scope_text : Scope → String
scope_text enqueue = "enqueue"
scope_text read = "read"
scope_text admin = "admin"

-- A row of `api_key`; the hash stands as a text, and times are milliseconds.
pub record ApiKeyRow : Type 0 where
  pub id : ℕ
  pub name : String
  pub key_hash : String
  pub key_prefix : String
  pub scopes : List String
  pub queues : Option (List String)
  pub expires_at : Option ℕ
  pub revoked_at : Option ℕ
  pub last_used_at : Option ℕ

pub record ApiKeyRecord : Type 0 where
  pub id : ℕ
  pub name : String
  pub scopes : List Scope
  pub queues : Option (List String)

-- The table with the sequence behind its identity column.
pub record KeyTable : Type 0 where
  pub rows : List ApiKeyRow
  pub next_id : ℕ

-- `isScope`, with the scope that the text is.
unfoldable pub scope_of : String → Option Scope
scope_of s =
    if str_eq s "enqueue"
    then some enqueue
    else if str_eq s "read"
    then some read
    else if str_eq s "admin"
    then some admin
    else none

abbrev pub cons_some : Option Scope → List Scope → List Scope
cons_some none rest = rest
cons_some (some s) rest = s ∷ rest

-- `row.scopes.filter(isScope)`
unfoldable pub scopes_of : List String → List Scope
unfolding scope_of
scopes_of [] = []
scopes_of (s ∷ ss) = cons_some (scope_of s) (scopes_of ss)

-- `WHERE key_hash = $1`
unfoldable pub find_key : String → List ApiKeyRow → Option ApiKeyRow
find_key hash [] = none
find_key hash (r ∷ rows) =
    let rest = find_key hash rows in if str_eq r.key_hash hash then some r else rest

abbrev pub is_set {ℓ} : {A : Type ℓ} → Option A → Bool
is_set none = false
is_set (some a) = true

abbrev pub has_expired : ℕ → Option ℕ → Bool
has_expired now none = false
has_expired now (some e) = leb e now

unfoldable pub record_of : ApiKeyRow → ApiKeyRecord
unfolding scopes_of
record_of r = record { id = r.id; name = r.name; scopes = scopes_of r.scopes; queues = r.queues }

-- What is made of the row that the statement found.
unfoldable pub admit : ℕ → Option ApiKeyRow → Option ApiKeyRecord
unfolding record_of
admit now none = none
admit now (some r) =
    if is_set r.revoked_at
    then none
    else if has_expired now r.expires_at
    then none
    else some (record_of r)

-- `hashKey` under the deployment's salt is a parameter: SHA-256 is Node's.
module _ (hash_key : String → String) where
  -- `authenticate`, its answer. The row found has the hash asked for, so that `timingSafeEqual` says
  -- yes.
  unfoldable pub authenticate : ℕ → String → List ApiKeyRow → Option ApiKeyRecord
  unfolding starts_with admit find_key
  authenticate now presented rows =
      if starts_with "pgjq_" presented then admit now (find_key (hash_key presented) rows) else none

-- UPDATE of `api_key`, which here meets no constraint.
unfoldable pub update_keys :
    (ApiKeyRow → Bool) → (ApiKeyRow → ApiKeyRow) → List ApiKeyRow → List ApiKeyRow
update_keys p f [] = []
update_keys p f (r ∷ rows) = (if p r then f r else r) ∷ update_keys p f rows

abbrev pub touched : ℕ → ApiKeyRow → ApiKeyRow
touched now r = record r { last_used_at = some now }

-- `UPDATE api_key SET last_used_at = now() WHERE id = $1`
unfoldable pub touch : ℕ → ℕ → List ApiKeyRow → List ApiKeyRow
unfolding update_keys
touch now id rows = update_keys (λ r. r.id == id) (touched now) rows

-- The constraint `api_key_scopes_valid`.
unfoldable pub scopes_valid : List String → Bool
unfolding scope_of
scopes_valid ss = leb 1 (length ss) && all (λ s. is_set (scope_of s)) ss

-- INSERT, with the unique index on `key_hash`: the row's id, or none if a constraint refused it.
unfoldable pub insert_key : ApiKeyRow → KeyTable → KeyTable × Option ℕ
unfolding find_key scopes_valid
insert_key r t =
    if scopes_valid r.scopes && not (is_set (find_key r.key_hash t.rows))
    then (
      record { rows = t.rows ++ record r { id = t.next_id } ∷ []; next_id = suc t.next_id },
      some t.next_id,
    )
    else (t, none)

pub record NewKey : Type 0 where
  pub name : String
  pub scopes : List Scope
  pub queues : Option (List String)
  pub expires_at : Option ℕ

-- `keyPrefix`: what `generateKey` puts before a key, and 8 characters of it.
unfoldable pub key_prefix : String → String
unfolding slice_to
key_prefix key = slice_to 13 key

module _ (hash_key : String → String) where
  -- The row of a key that `generateKey` drew.
  abbrev pub new_row : String → NewKey → ApiKeyRow
  new_row key p = record {
    id = 0;
    name = p.name;
    key_hash = hash_key key;
    key_prefix = key_prefix key;
    scopes = map scope_text p.scopes;
    queues = p.queues;
    expires_at = p.expires_at;
    revoked_at = none;
    last_used_at = none;
  }

  abbrev pub bootstrap_row : String → ApiKeyRow
  bootstrap_row plaintext = record {
    id = 0;
    name = "bootstrap";
    key_hash = hash_key plaintext;
    key_prefix = slice_to 12 plaintext;
    scopes = "enqueue" ∷ "read" ∷ "admin" ∷ [];
    queues = none;
    expires_at = none;
    revoked_at = none;
    last_used_at = none;
  }

  -- `create`
  unfoldable pub create : String → NewKey → KeyTable → KeyTable × Option ℕ
  unfolding insert_key
  create key p t = insert_key (new_row key p) t

  -- `ensureBootstrapKey`: ON CONFLICT (key_hash) DO NOTHING.
  unfoldable pub ensure_bootstrap_key : String → KeyTable → KeyTable
  unfolding insert_key
  ensure_bootstrap_key plaintext t = (insert_key (bootstrap_row plaintext) t).0

-- `revoke`: the table, and whether a row was written.
abbrev pub revocable : ℕ → ApiKeyRow → Bool
revocable id r = r.id == id && not (is_set r.revoked_at)

abbrev pub revoked : ℕ → ApiKeyRow → ApiKeyRow
revoked now r = record r { revoked_at = some now }

unfoldable pub revoke : ℕ → ℕ → KeyTable → KeyTable × Bool
unfolding update_keys
revoke now id t =
    (record t { rows = update_keys (revocable id) (revoked now) t.rows }, any (revocable id) t.rows)

-- `authorizes`; an absent queue is no restriction.
abbrev pub covers : Option (List String) → Option String → Bool
covers queues none = true
covers none (some q) = true
covers (some qs) (some q) = any (λ x. str_eq x q) qs

unfoldable pub authorizes : ApiKeyRecord → Scope → Option String → Bool
authorizes r scope queue = any (λ s. scope_eq s scope) r.scopes && covers r.queues queue
