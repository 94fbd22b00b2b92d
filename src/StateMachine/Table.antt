-- ===== src/StateMachine/Table.antt =====
-- StateMachine: the table, against a description without it.
use pgjobq.Base.{◌≡◌, ◌↔◌, true, arith}
use pgjobq.Types.{JobState, available, running, succeeded, dead, cancelled, is_terminal}
use pgjobq.StateMachine.{
  TransitionReason, claim, succeed, retry, exhaust, cancel_ack, cancel, replay, operator_retry,
  can_transition, has_reason,
}

-- A reason of the table for a permitted pair.
abbrev some_reason : JobState → JobState → TransitionReason
some_reason available running = claim
some_reason available cancelled = cancel
some_reason available _ = operator_retry
some_reason running succeeded = succeed
some_reason running available = retry
some_reason running dead = exhaust
some_reason running _ = cancel_ack
some_reason _ _ = replay

permitted_reason :
    (a b : JobState) → can_transition a b ≡ true → has_reason a b (some_reason a b) ≡ true
unfolding can_transition has_reason
permitted_reason a b h = ground arith

reason_permitted :
    (a b : JobState) (r : TransitionReason) → has_reason a b r ≡ true → can_transition a b ≡ true
unfolding can_transition has_reason
reason_permitted a b r h = ground arith

-- A pair of states is permitted exactly when the table has an entry for it with some reason.
pub can_transition-reason :
    (a b : JobState)
    → (can_transition a b ≡ true) ↔ ((r : TransitionReason) × (has_reason a b r ≡ true))
can_transition-reason a b =
    (λ h. (some_reason a b, permitted_reason a b h), λ (r, h). reason_permitted a b r h)

-- No transition of any reason leaves `succeeded` or `cancelled`, and the one that leaves `dead` is a
-- replay, to `available`.
pub exits :
    (a b : JobState) (r : TransitionReason)
    → has_reason a b r ≡ true
    → is_terminal a ≡ true
    → (a ≡ dead) × (b ≡ available) × (r ≡ replay)
unfolding has_reason
exits a b r h t = ground arith
