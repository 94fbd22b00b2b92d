-- ===== src/StateMachine.antt =====
-- packages/core/src/engine/state-machine.ts: the table of permitted transitions and its tests.
pub mod Table
use pgjobq.Base.{
  Bool, true, false, ◌&&◌, String, Option, none, some, List, [], ◌∷◌, ◌++◌, any, if◌then◌else◌,
}
use pgjobq.Types.{JobState, available, running, succeeded, dead, cancelled}

pub data TransitionReason : Type 0 where
  enqueue claim succeed retry exhaust non_retryable reap_retry reap_exhaust : TransitionReason
  cancel cancel_ack operator_retry replay : TransitionReason

-- An entry of the table, without its description.
pub record Transition : Type 0 where
  pub from : JobState
  pub to : JobState
  pub reason : TransitionReason

-- Equality of states, as `===` on their names.
abbrev pub state_eq : JobState → JobState → Bool
state_eq available available = true
state_eq running running = true
state_eq succeeded succeeded = true
state_eq dead dead = true
state_eq cancelled cancelled = true
state_eq _ _ = false

abbrev pub reason_eq : TransitionReason → TransitionReason → Bool
reason_eq enqueue enqueue = true
reason_eq claim claim = true
reason_eq succeed succeed = true
reason_eq retry retry = true
reason_eq exhaust exhaust = true
reason_eq non_retryable non_retryable = true
reason_eq reap_retry reap_retry = true
reason_eq reap_exhaust reap_exhaust = true
reason_eq cancel cancel = true
reason_eq cancel_ack cancel_ack = true
reason_eq operator_retry operator_retry = true
reason_eq replay replay = true
reason_eq _ _ = false

abbrev entry : JobState → JobState → TransitionReason → Transition
entry a b r = record { from = a; to = b; reason = r }

unfoldable pub transitions : List Transition
transitions =
    entry available running claim
    ∷ entry available cancelled cancel
    ∷ entry running succeeded succeed
    ∷ entry running available retry
    ∷ entry running dead exhaust
    ∷ entry running dead non_retryable
    ∷ entry running available reap_retry
    ∷ entry running dead reap_exhaust
    ∷ entry running cancelled cancel_ack
    ∷ entry dead available replay
    ∷ entry available available operator_retry
    ∷ []

abbrev pub includes : JobState → List JobState → Bool
includes s l = any (state_eq s) l

-- `Set.add`, in the order of insertion.
abbrev add : JobState → List JobState → List JobState
add s l = if includes s l then l else l ++ s ∷ []

-- The targets of a state that the first entries of the table have added.
collect : JobState → List JobState → List Transition → List JobState
collect from seen [] = seen
collect from seen (t ∷ ts) = collect from (if state_eq t.from from then add t.to seen else seen) ts

-- `permittedTargets`, from the map PERMITTED.
unfoldable pub permitted_targets : JobState → List JobState
unfolding collect transitions any
permitted_targets from = collect from [] transitions

unfoldable pub can_transition : JobState → JobState → Bool
unfolding permitted_targets
can_transition from to = includes to (permitted_targets from)

unfoldable pub is_claimable : JobState → Bool
is_claimable s = state_eq s available

-- What `InvalidTransitionError` names.
pub record InvalidTransition : Type 0 where
  pub from : JobState
  pub to : JobState
  pub permitted : List JobState

-- `assertTransition`: the error thrown, if any.
unfoldable pub assert_transition : JobState → JobState → Option InvalidTransition
unfolding can_transition permitted_targets
assert_transition from to =
    if can_transition from to
    then none
    else some (record { from = from; to = to; permitted = permitted_targets from })

-- The key `from->to:reason` is in the map REASONS.
unfoldable pub has_reason : JobState → JobState → TransitionReason → Bool
unfolding transitions any
has_reason from to reason =
    any (λ t. state_eq t.from from && state_eq t.to to && reason_eq t.reason reason) transitions

unfoldable pub assert_transition_reason :
    JobState → JobState → TransitionReason → Option InvalidTransition
unfolding has_reason permitted_targets
assert_transition_reason from to reason =
    if has_reason from to reason
    then none
    else some (record { from = from; to = to; permitted = permitted_targets from })
