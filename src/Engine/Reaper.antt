-- ===== src/Engine/Reaper.antt =====
-- packages/core/src/engine/reaper.ts: passes over the expired leases.
pub mod Drain
use pgjobq.Base.{
  ℕ, zero, suc, ◌+◌, Bool, true, false, Option, none, some, List, [], ◌∷◌, ltb, if◌then◌else◌,
}
use pgjobq.Types.{Job, is_dead}
use pgjobq.Table.{Elsewhere, Result, ok, err}
use pgjobq.Sql.Reap.{reap_expired_leases}

pub record ReapResult : Type 0 where
  pub recovered : ℕ
  pub dead_lettered : ℕ

-- The loop over the rows of the answer.
unfoldable pub count_reaped : List Job → ReapResult
count_reaped [] = record { recovered = 0; dead_lettered = 0 }
count_reaped (row ∷ rows) =
    let rest = count_reaped rows in
    if is_dead row.state
    then record rest { dead_lettered = rest.dead_lettered + 1 }
    else record rest { recovered = rest.recovered + 1 }

abbrev pub reap_counted : Result (List Job × List Job) → Result (List Job × ReapResult)
unfolding count_reaped
reap_counted (ok (t, rows)) = ok (t, count_reaped rows)
reap_counted (err e) = err e

-- `reapOnce`, with the delay that `nextDelaySeconds` gives it.
unfoldable pub reap_once : (ℕ → Bool) → ℕ → ℕ → ℕ → List Job → Result (List Job × ReapResult)
unfolding count_reaped
reap_once locked batch_max delay now t =
    reap_counted (reap_expired_leases now locked batch_max delay t)

-- How the loop ends: how many rows it took, and the table; none is a loop that has not ended.
abbrev pub Drained : Type 0
Drained = Option (ℕ × List Job)

abbrev pub more_taken : ℕ → Drained → Drained
more_taken n none = none
more_taken n (some (m, t)) = some (n + m, t)

-- What goes on after a pass, by its size.
abbrev pub after_pass :
    (List Job → Drained) → ℕ → List Job → Result (List Job × ReapResult) → Drained
after_pass rest batch_max t (err e) = some (0, t)
after_pass rest batch_max t (ok (t', r)) =
    let n = r.recovered + r.dead_lettered in
    let more = more_taken n (rest t') in if ltb n batch_max then some (n, t') else more

-- The inner loop of `run`, for a reaper that is not stopped: passes until one is not full. The fuel
-- counts the passes that may be made; each has its locks, its delay and its time.
unfoldable pub drain : ℕ → (ℕ → ℕ → Bool) → ℕ → (ℕ → ℕ) → (ℕ → ℕ) → List Job → Drained
drain zero locked batch_max delay clock t = none
drain (suc fuel) locked batch_max delay clock t =
    after_pass (drain fuel locked batch_max delay clock) batch_max t
      (reap_once (locked fuel) batch_max (delay fuel) (clock fuel) t)
