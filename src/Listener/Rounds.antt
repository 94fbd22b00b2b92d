-- ===== src/Listener/Rounds.antt =====
-- Listener: its turns over any sequence of connections, and the names of its queues.
use pgjobq.Base.{
  ℕ, suc, ◌≤◌, ◌≡◌, refl, inl, inr, String, true, false, Option, none, some, List, [], ◌∷◌, arith,
  map, all, In, All, Bool, Bool-cases,
}
use pgjobq.Listener.{
  safe_channel, ListenerOptions, Listener, Connection, reconnect_delay, listening, Turn, turn,
  turns,
}

-- Whether a connection is made at all.
abbrev pub is_made : Connection → Bool
is_made Connection.refuses = false
is_made _ = true

-- What a turn comes to with a queue after `before` whose channel is refused.
pub record CutOff (before : List String) (c : Connection) (u : Turn) : Type 0 where
  pub never_up : u.up ≡ none
  pub heard : All (λ x. In x before) u.heard
  pub left_open : u.left_open ≡ is_made c

pub CutOffs : List String → List Connection → List Turn → Type 0
CutOffs before (c ∷ cs) (u ∷ us) = CutOff before c u × CutOffs before cs us
CutOffs before [] [] = Unit {0}
CutOffs before _ _ = ⊥

abbrev pub comes_up : Connection → Option Listener
comes_up Connection.refuses = none
comes_up Connection.ends = some listening
comes_up Connection.fails = some listening

-- The delay is at most the cap.
abbrev pub Waits : ListenerOptions → Option ℕ → Type 0
Waits o none = Unit {0}
Waits o (some d) = d ≤ o.reconnect_max_ms

delay-le : (o : ListenerOptions) (attempt : ℕ) → reconnect_delay o attempt ≤ o.reconnect_max_ms
unfolding reconnect_delay
delay-le o attempt = omega arith

turn-Waits : (o : ListenerOptions) (c : Connection) (l : Listener) → Waits o (turn o c l).delay
unfolding turn
turn-Waits o Connection.refuses l = delay-le o (suc l.attempt)
turn-Waits o Connection.ends l = elim (Bool-cases (all safe_channel o.queues)) [
  | inl y ↦ rw y tt
  | inr n ↦ rw n (delay-le o (suc l.attempt))
]
turn-Waits o Connection.fails l = elim (Bool-cases (all safe_channel o.queues)) [
  | inl y ↦ rw y (delay-le o 1)
  | inr n ↦ rw n (delay-le o (suc l.attempt))
]

turn-up :
    (o : ListenerOptions) (c : Connection) (l : Listener)
    → all safe_channel o.queues ≡ true
    → (turn o c l).up ≡ comes_up c
unfolding turn
turn-up o Connection.refuses l h = refl
turn-up o Connection.ends l h = rw h refl
turn-up o Connection.fails l h = rw h refl

-- Where all queues have channels that Postgres can tell apart, the listener comes up, with its count of
-- attempts at 0, in exactly those turns whose connection is not refused; and no delay between two turns is
-- above the cap.
pub turns_listen :
    (o : ListenerOptions) (cs : List Connection) (l : Listener)
    → all safe_channel o.queues ≡ true
    → (map (λ u. u.up) (turns o cs l) ≡ map comes_up cs) × All (λ u. Waits o u.delay) (turns o cs l)
unfolding turns
turns_listen o [] l h = (refl, tt)
turns_listen o (c ∷ cs) l h =
    let (ups, waits) = turns_listen o cs (turn o c l).after h in
    (rw (turn-up o c l h, ups) refl, (turn-Waits o c l, waits))
