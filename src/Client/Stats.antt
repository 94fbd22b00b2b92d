-- ===== src/Client/Stats.antt =====
-- packages/core/src/client.ts, `queueStats`, over the statement of sql/query.sql.ts.
pub mod Groups
pub mod Exact
use pgjobq.Base.{
  ℕ, ◌+◌, String, Bool, true, false, ◌&&◌, Option, none, some, List, [], ◌∷◌, any, leb, ltb, min,
  ◌-◌, str_eq, if◌then◌else◌,
}
use pgjobq.Types.{Job, JobState}
use pgjobq.StateMachine.{state_eq}
use pgjobq.Types.{is_available}

pub record QueueStatsRow : Type 0 where
  pub queue : String
  pub state : JobState
  pub count : ℕ

abbrev pub is_group : String → JobState → QueueStatsRow → Bool
is_group queue state r = str_eq r.queue queue && state_eq r.state state

-- A row of the table counted in its group.
unfoldable pub counted : String → JobState → List QueueStatsRow → List QueueStatsRow
counted queue state [] = record { queue = queue; state = state; count = 1 } ∷ []
counted queue state (r ∷ rs) =
    let rest = counted queue state rs in
    if is_group queue state r then record r { count = r.count + 1 } ∷ rs else r ∷ rest

-- `GROUP BY queue, state`; its order does not matter to the client.
unfoldable pub queue_stats : List Job → List QueueStatsRow
unfolding counted
queue_stats [] = []
queue_stats (j ∷ t) = counted j.queue j.state (queue_stats t)

-- The names that every object of JavaScript inherits.
abbrev pub inherited_names : List String
inherited_names =
    "__proto__" ∷ "constructor" ∷ "hasOwnProperty" ∷ "isPrototypeOf" ∷ "propertyIsEnumerable"
    ∷ "toLocaleString" ∷ "toString" ∷ "valueOf" ∷ "__defineGetter__" ∷ "__defineSetter__"
    ∷ "__lookupGetter__" ∷ "__lookupSetter__" ∷ []

unfoldable pub is_inherited : String → Bool
is_inherited name = any (λ n. str_eq n name) inherited_names

-- The object of the answer: its own keys, with the counts of their states.
abbrev pub Counts : Type 0
Counts = List (JobState × ℕ)

unfoldable pub set_count : JobState → ℕ → Counts → Counts
set_count state n [] = (state, n) ∷ []
set_count state n ((s, m) ∷ cs) =
    let rest = set_count state n cs in if state_eq s state then (state, n) ∷ cs else (s, m) ∷ rest

unfoldable pub set_own : QueueStatsRow → List (String × Counts) → List (String × Counts)
unfolding set_count
set_own r [] = (r.queue, (r.state, r.count) ∷ []) ∷ []
set_own r ((q, cs) ∷ out) =
    let rest = set_own r out in
    if str_eq q r.queue then (q, set_count r.state r.count cs) ∷ out else (q, cs) ∷ rest

-- `(out[r.queue] ??= {})[r.state] = …`: at an inherited name there is an object already, on which the
-- count is written. A count on the object of `__proto__` shows in every object from then on, which is
-- left out: the answer is that of tables with no such queue.
unfoldable pub told : QueueStatsRow → List (String × Counts) → List (String × Counts)
unfolding is_inherited set_own
told r out = if is_inherited r.queue then out else set_own r out

unfoldable pub told_all : List QueueStatsRow → List (String × Counts) → List (String × Counts)
unfolding told
told_all [] out = out
told_all (r ∷ rs) out = told_all rs (told r out)

-- `queueStats`
unfoldable pub stats : List Job → List (String × Counts)
unfolding queue_stats told_all
stats t = told_all (queue_stats t) []

-- What a caller reads at a queue and a state, of the object's own keys.
unfoldable pub count_at : JobState → Counts → Option ℕ
count_at state [] = none
count_at state ((s, n) ∷ cs) =
    let rest = count_at state cs in if state_eq s state then some n else rest

unfoldable pub read_at : String → JobState → List (String × Counts) → Option ℕ
unfolding count_at
read_at queue state [] = none
read_at queue state ((q, cs) ∷ out) =
    let rest = read_at queue state out in if str_eq q queue then count_at state cs else rest

-- A group of `queueLag`: the ready jobs, and the earliest time that one of them was due.
pub record QueueLagRow : Type 0 where
  pub queue : String
  pub ready : ℕ
  pub oldest_run_at : ℕ

unfoldable pub lagging : Job → List QueueLagRow → List QueueLagRow
lagging j [] = record { queue = j.queue; ready = 1; oldest_run_at = j.run_at } ∷ []
lagging j (r ∷ rs) =
    let rest = lagging j rs in
    if str_eq r.queue j.queue
    then record r { ready = r.ready + 1; oldest_run_at = min r.oldest_run_at j.run_at } ∷ rs
    else r ∷ rest

-- `queueLag`
unfoldable pub queue_lag : ℕ → List Job → List QueueLagRow
unfolding lagging
queue_lag now [] = []
queue_lag now (j ∷ t) =
    let rest = queue_lag now t in
    if is_available j.state && leb j.run_at now then lagging j rest else rest

-- An entry of the answer of the server's `/queues`; the wait is in milliseconds.
pub record Overview : Type 0 where
  pub queue : String
  pub counts : Counts
  pub ready : ℕ
  pub oldest_wait : ℕ

abbrev pub of_lag : ℕ → String → Counts → Option QueueLagRow → Overview
of_lag now q cs none = record { queue = q; counts = cs; ready = 0; oldest_wait = 0 }
of_lag now q cs (some r) = record {
  queue = q;
  counts = cs;
  ready = r.ready;
  oldest_wait = now - r.oldest_run_at;
}

unfoldable pub lag_of : String → List QueueLagRow → Option QueueLagRow
lag_of q [] = none
lag_of q (r ∷ rs) = let rest = lag_of q rs in if str_eq r.queue q then some r else rest

-- The entries, one for each key of the stats.
unfoldable pub overview : ℕ → List QueueLagRow → List (String × Counts) → List Overview
unfolding lag_of
overview now lag [] = []
overview now lag ((q, cs) ∷ out) = of_lag now q cs (lag_of q lag) ∷ overview now lag out
