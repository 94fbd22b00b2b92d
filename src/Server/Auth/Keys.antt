-- ===== src/Server/Auth/Keys.antt =====
-- Server.Auth: the life of a key, from its creation to its revocation.
use pgjobq.Base.{
  ℕ, suc, ◌≡◌, refl, ap, ◌∙◌, String, Bool, true, false, none, some, List, [], ◌∷◌, ◌++◌, map,
  arith, ◌==◌, ==_iff, if◌then◌else◌, ◌⊎◌, inl, inr, Option-cases, Bool-cases,
}
use text.Mathlib.TextPositions.{eq_refl}
use mathlib.Core.Option
use pgjobq.Base.Text.{starts_with}
use pgjobq.Server.Auth.{
  Scope, ApiKeyRow, ApiKeyRecord, KeyTable, NewKey, enqueue, read, admin, scope_text, scopes_of,
  find_key, is_set, has_expired, record_of, admit, authenticate, touch, update_keys, revocable,
  touched, revoked, new_row, bootstrap_row, scopes_valid, insert_key, create, ensure_bootstrap_key,
  revoke,
}

-- What is done to the table while the server runs: the calls, and the mark that a use leaves.
pub data KeyOp : Type 0 where
  creates : String → NewKey → KeyOp
  bootstraps : String → KeyOp
  revokes : ℕ → ℕ → KeyOp
  touches : ℕ → ℕ → KeyOp

module _ (hash_key : String → String) where
  unfoldable pub exec_key : KeyOp → KeyTable → KeyTable
  unfolding create ensure_bootstrap_key revoke touch
  exec_key (creates key p) t = (create hash_key key p t).0
  exec_key (bootstraps key) t = ensure_bootstrap_key hash_key key t
  exec_key (revokes now id) t = (revoke now id t).0
  exec_key (touches now id) t = record t { rows = touch now id t.rows }

  unfoldable pub run_keys : List KeyOp → KeyTable → KeyTable
  unfolding exec_key
  run_keys [] t = t
  run_keys (op ∷ ops) t = run_keys ops (exec_key op t)

-- The row with this hash is there, and revoked.
abbrev IsDead : String → List ApiKeyRow → Type 0
IsDead hash rows = (r : ApiKeyRow) × (find_key hash rows ≡ some r) × (is_set r.revoked_at ≡ true)

find_key-append :
    (hash : String) (rows more : List ApiKeyRow) (r : ApiKeyRow)
    → find_key hash rows ≡ some r
    → find_key hash (rows ++ more) ≡ some r
unfolding find_key
find_key-append hash [] more r e = cc
find_key-append hash (k ∷ rows) more r e = ground (arith, find_key-append hash rows more r)

find_key-append_none :
    (hash : String) (rows more : List ApiKeyRow)
    → find_key hash rows ≡ none
    → find_key hash (rows ++ more) ≡ find_key hash more
unfolding find_key
find_key-append_none hash [] more e = refl
find_key-append_none hash (k ∷ rows) more e = ground (arith, find_key-append_none hash rows more)

abbrev updated : (ApiKeyRow → Bool) → (ApiKeyRow → ApiKeyRow) → ApiKeyRow → ApiKeyRow
updated p f k = if p k then f k else k

find_key-update :
    (p : ApiKeyRow → Bool) (f : ApiKeyRow → ApiKeyRow) (hash : String) (rows : List ApiKeyRow)
    → ((k : ApiKeyRow) → (f k).key_hash ≡ k.key_hash)
    → find_key hash (update_keys p f rows) ≡ Option.map (updated p f) (find_key hash rows)
unfolding find_key update_keys
find_key-update p f hash [] same = refl
find_key-update p f hash (k ∷ rows) same =
    ground (arith, find_key-update p f hash rows same, same k)

-- An update that unsets no revocation.
update-IsDead :
    (p : ApiKeyRow → Bool) (f : ApiKeyRow → ApiKeyRow) (hash : String) (rows : List ApiKeyRow)
    → ((k : ApiKeyRow) → (f k).key_hash ≡ k.key_hash)
    → ((k : ApiKeyRow) → is_set k.revoked_at ≡ true → is_set (f k).revoked_at ≡ true)
    → IsDead hash rows
    → IsDead hash (update_keys p f rows)
update-IsDead p f hash rows same keep (r, e, s) = (
  updated p f r,
  find_key-update p f hash rows same ∙ ap (Option.map (updated p f)) e,
  ground (arith, keep r),
)

-- An insertion is refused, or appends a row whose hash was not there.
insert_key-cases :
    (r : ApiKeyRow) (t : KeyTable)
    → (insert_key r t ≡ (t, none))
      ⊎ ((find_key r.key_hash t.rows ≡ none)
          × (insert_key r t ≡ (
            record { rows = t.rows ++ record r { id = t.next_id } ∷ []; next_id = suc t.next_id },
            some t.next_id,
          )))
unfolding insert_key
insert_key-cases r t = elim (Bool-cases (scopes_valid r.scopes)) [
  | inr n ↦ inl (rw n refl)
  | inl y ↦ elim (Option-cases (find_key r.key_hash t.rows)) [
    | inl e ↦ inr (e, rw (y, e) refl)
    | inr (k, e) ↦ inl (rw (y, e) refl)
  ]
]

insert_key-IsDead :
    (hash : String) (r : ApiKeyRow) (t : KeyTable)
    → IsDead hash t.rows
    → IsDead hash (insert_key r t).0.rows
insert_key-IsDead hash r t (k, e, s) = elim (insert_key-cases r t) [
  | inl same ↦ rw same (k, e, s)
  | inr (_, added) ↦
      rw added (k, find_key-append hash t.rows (record r { id = t.next_id } ∷ []) k e, s)
]

revoke-IsDead :
    (hash : String) (now id : ℕ) (t : KeyTable) (r : ApiKeyRow)
    → find_key hash t.rows ≡ some r
    → r.id ≡ id
    → IsDead hash (revoke now id t).0.rows
unfolding revoke
revoke-IsDead hash now id t r e i = (
  updated (revocable id) (revoked now) r,
  find_key-update (revocable id) (revoked now) hash t.rows (λ k. refl)
      ∙ ap (Option.map (updated (revocable id) (revoked now))) e,
  ground (arith, ==_iff r.id id),
)

scopes_of_texts : (ss : List Scope) → scopes_of (map scope_text ss) ≡ ss
unfolding scopes_of
scopes_of_texts [] = refl
scopes_of_texts (enqueue ∷ ss) = ap (◌∷◌ enqueue) (scopes_of_texts ss)
scopes_of_texts (read ∷ ss) = ap (◌∷◌ read) (scopes_of_texts ss)
scopes_of_texts (admin ∷ ss) = ap (◌∷◌ admin) (scopes_of_texts ss)

module _ (hash_key : String → String) where
  exec_key-IsDead :
      (hash : String) (op : KeyOp) (t : KeyTable)
      → IsDead hash t.rows
      → IsDead hash (exec_key hash_key op t).rows
  unfolding exec_key create ensure_bootstrap_key revoke touch
  exec_key-IsDead hash (creates key p) t d = insert_key-IsDead hash (new_row hash_key key p) t d
  exec_key-IsDead hash (bootstraps key) t d =
      insert_key-IsDead hash (bootstrap_row hash_key key) t d
  exec_key-IsDead hash (revokes now id) t d =
      update-IsDead (revocable id) (revoked now) hash t.rows (λ k. refl) (λ k s. refl) d
  exec_key-IsDead hash (touches now id) t d =
      update-IsDead (λ k. k.id == id) (touched now) hash t.rows (λ k. refl) (λ k s. s) d

  run_keys-IsDead :
      (hash : String) (ops : List KeyOp) (t : KeyTable)
      → IsDead hash t.rows
      → IsDead hash (run_keys hash_key ops t).rows
  unfolding run_keys
  run_keys-IsDead hash [] t d = d
  run_keys-IsDead hash (op ∷ ops) t d =
      run_keys-IsDead hash ops (exec_key hash_key op t) (exec_key-IsDead hash op t d)

  authenticate_dead :
      (now : ℕ) (key : String) (rows : List ApiKeyRow)
      → IsDead (hash_key key) rows
      → authenticate hash_key now key rows ≡ none
  unfolding authenticate
  authenticate_dead now key rows (r, e, s) = rw e (ground arith)

  authenticate-found :
      (now : ℕ) (key : String) (rows : List ApiKeyRow) (k : ApiKeyRecord)
      → authenticate hash_key now key rows ≡ some k
      → (r : ApiKeyRow) × (find_key (hash_key key) rows ≡ some r) × (r.id ≡ k.id)
  unfolding authenticate
  authenticate-found now key rows k h = elim (Option-cases (find_key (hash_key key) rows)) [
    | inl e ↦ absurd (ground (arith, e))
    | inr (r, e) ↦ (r, e, ground (arith, e))
  ]

  -- Once a key that was accepted is revoked by the id of its record, nothing that is done to the
  -- table makes it accepted again: not the creation of keys, not other revocations, and not a
  -- restart that asks for the same bootstrap key.
  pub revoked_for_good :
      (t : KeyTable) (key : String) (k : ApiKeyRecord) (before now later : ℕ) (ops : List KeyOp)
      → authenticate hash_key before key t.rows ≡ some k
      → authenticate hash_key later key (run_keys hash_key ops (revoke now k.id t).0).rows ≡ none
  revoked_for_good t key k before now later ops h =
      let (r, e, i) = authenticate-found before key t.rows k h in
      authenticate_dead later key _
        (run_keys-IsDead (hash_key key) ops _ (revoke-IsDead (hash_key key) now k.id t r e i))

  -- A key that was just created, with the prefix of all keys, is accepted until it expires, as the
  -- record that the caller asked for: its name, its scopes and its queues.
  pub created_key_works :
      (t t' : KeyTable) (key : String) (p : NewKey) (id now : ℕ)
      → create hash_key key p t ≡ (t', some id)
      → starts_with "pgjq_" key ≡ true
      → has_expired now p.expires_at ≡ false
      → authenticate hash_key now key t'.rows
        ≡ some (record { id = id; name = p.name; scopes = p.scopes; queues = p.queues })
  unfolding create authenticate admit record_of
  created_key_works t t' key p id now h s x = elim (insert_key-cases (new_row hash_key key p) t) [
    | inl same ↦ cc (h, same)
    | inr (fresh, added) ↦
        let table : t'.rows ≡ t.rows ++ record (new_row hash_key key p) { id = id } ∷ [] =
          cc (h, added) in
        rw
          (
            table,
            find_key-append_none (hash_key key) t.rows
                (record (new_row hash_key key p) { id = id } ∷ []) fresh,
          )
          (rw (s, eq_refl (hash_key key), x, scopes_of_texts p.scopes, admit, record_of) refl)
  ]
