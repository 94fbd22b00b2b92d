-- ===== src/Table.antt =====
-- What the statements of packages/core/src/sql run on: the table `job` under the constraints of
-- packages/core/migrations/001_initial_schema.sql, and UPDATE as Postgres runs it.
pub mod Update
pub mod Keys
pub mod Ids
pub mod Valid
pub mod Selection
pub mod Deletion
pub mod Pairs
use pgjobq.Base.{
  ℕ, ◌≡◌, String, Bool, true, false, ◌&&◌, ◌||◌, not, Option, none, some, List, [], ◌∷◌, map, leb,
  ◌==◌, str_eq, if◌then◌else◌, where_, all, any,
}
use pgjobq.Base.Int.{ℤ, pos_part, neg_part}
use pgjobq.Types.{Job, is_running, is_dead, is_terminal, is_active}

-- The errors that the code tells apart: 23505, and a CHECK that fails or a value out of its column's
-- range (23514, 22003).
pub data PgError : Type 0 where
  check_violation unique_violation : PgError

pub data Result {ℓ} (A : Type ℓ) : Type ℓ where
  ok : A → Result A
  err : PgError → Result A

abbrev pub is_some {ℓ} : {A : Type ℓ} → Option A → Bool
is_some none = false
is_some (some a) = true

-- The range of a smallint.
abbrev pub is_smallint : ℤ → Bool
is_smallint n = leb (pos_part n) 32767 && leb (neg_part n) 32768

-- The CHECK constraints of the table, `job_attempt_bounded` first, and the ranges of `priority`, a smallint,
-- and of `lease_seconds`, an integer.
unfoldable pub check_row : Job → Bool
check_row j =
    leb j.attempt j.max_attempts
    && leb 1 j.max_attempts
    && leb j.max_attempts 1000
    && leb 1 j.lease_seconds
    && leb j.lease_seconds 2147483647
    && is_smallint j.priority
    && (not (is_running j.state) || (is_some j.lease_expires_at && is_some j.worker_id))
    && (not (is_dead j.state) || is_some j.dead_reason)
    && (not (is_terminal j.state) || is_some j.finished_at)

-- Two keys that a partial unique index compares: a NULL equals nothing.
abbrev pub key_eq : Option String → Option String → Bool
key_eq (some a) (some b) = str_eq a b
key_eq _ _ = false

-- The two rows collide in job_idempotency_idx or in job_unique_active_idx.
unfoldable pub clash : Job → Job → Bool
clash j k =
    str_eq j.queue k.queue
    && (key_eq j.idempotency_key k.idempotency_key
        || (key_eq j.unique_key k.unique_key && is_active j.state && is_active k.state))

-- No two rows of the table collide in a unique index.
unfoldable pub unique_rows : List Job → Bool
unfolding clash
unique_rows [] = true
unique_rows (j ∷ t) = not (any (clash j) t) && unique_rows t

unfoldable pub update_where : (Job → Bool) → (Job → Job) → List Job → List Job
update_where p f [] = []
update_where p f (j ∷ t) = (if p j then f j else j) ∷ update_where p f t

-- UPDATE … WHERE … RETURNING: the new table and the rows written. A constraint that fails takes
-- the whole statement back.
unfoldable pub update : (Job → Bool) → (Job → Job) → List Job → Result (List Job × List Job)
update p f t =
    let written = map f (where_ p t) in
    let t' = update_where p f t in
    if all check_row written
    then (if unique_rows t' then ok (t', written) else err unique_violation)
    else err check_violation

-- `j.id = c.id` for some candidate c.
abbrev pub among : List Job → Job → Bool
among cands j = any (λ c. c.id == j.id) cands

-- What the rest of the system does before the n-th statement of a call, and that statement's time.
pub record Elsewhere : Type 0 where
  pub clock : ℕ → ℕ
  pub between : ℕ → List Job → List Job
