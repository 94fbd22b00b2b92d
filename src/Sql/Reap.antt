-- ===== src/Sql/Reap.antt =====
-- packages/core/src/sql/reap.sql.ts: recovery of the jobs whose lease has expired.
pub mod Rows
use pgjobq.Base.{
  ℕ, ◌+◌, Bool, true, false, ◌&&◌, not, Option, none, some, List, [], ◌∷◌, ltb, leb, if◌then◌else◌,
  where_, order_by, take, length,
}
use pgjobq.Types.{Job, JobErrorRecord, JobState, DeadReason, ErrorKind, is_running}
use pgjobq.Table.{among, Result, update}
use pgjobq.Sql.Report.{push_error}

-- `lease_expires_at < now()`: no NULL passes.
abbrev pub lapsed : Option ℕ → ℕ → Bool
lapsed none now = false
lapsed (some d) now = ltb d now

unfoldable pub expired : ℕ → Job → Bool
expired now j = is_running j.state && lapsed j.lease_expires_at now

-- ORDER BY lease_expires_at, NULLs last.
abbrev pub lease_order : Option ℕ → Option ℕ → Bool
lease_order (some a) (some b) = leb a b
lease_order (some a) none = true
lease_order none (some b) = false
lease_order none none = true

unfoldable pub expired_rows : ℕ → (ℕ → Bool) → ℕ → List Job → List Job
unfolding expired
expired_rows now locked limit t = take limit (
    where_ (λ j. not (locked j.id))
      (order_by (λ j k. lease_order j.lease_expires_at k.lease_expires_at)
        (where_ (expired now) t)))

-- The statement trims the history at 5, whatever the configured bound.
abbrev pub reaped_history : ℕ
reaped_history = 5

unfoldable pub lease_error : ℕ → Job → JobErrorRecord
lease_error now j = record {
  attempt = j.attempt;
  at = now;
  kind = ErrorKind.lease_expired;
  name = some "LeaseExpired";
  message = some "Lease expired without the worker reporting an outcome";
  stack = none;
  worker_id = j.worker_id;
}

unfoldable pub reaped : ℕ → ℕ → Job → Job
reaped now retry_delay_ms j =
    let last = leb j.max_attempts j.attempt in
    record j {
      state = if last then JobState.dead else JobState.available;
      dead_reason = if last then some DeadReason.lease_expired else none;
      run_at = if last then j.run_at else now + retry_delay_ms;
      finished_at = if last then some now else none;
      started_at = if last then j.started_at else none;
      errors = push_error reaped_history (lease_error now j) j.errors;
      lease_expires_at = none;
      worker_id = none;
      updated_at = now;
    }

unfoldable pub reap_expired_leases :
    ℕ → (ℕ → Bool) → ℕ → ℕ → List Job → Result (List Job × List Job)
reap_expired_leases now locked limit retry_delay_ms t =
    update (among (expired_rows now locked limit t)) (reaped now retry_delay_ms) t

unfoldable pub count_overdue_leases : ℕ → List Job → ℕ
unfolding expired
count_overdue_leases now t = length (where_ (expired now) t)
