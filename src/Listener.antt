-- ===== src/Listener.antt =====
-- packages/core/src/worker/listener.ts: the connection that listens for enqueue notifications.
pub mod Rounds
use Prim.Native.String.{count}
use Prim.Native.Nat.{◌^◌}
use pgjobq.Base.{
  ℕ, suc, ◌+◌, ◌*◌, ◌-◌, min, String, Bool, true, false, ◌&&◌, Option, none, some, List, [], ◌∷◌,
  all, leb, ◌==◌, if◌then◌else◌,
}
use pgjobq.Base.Text.{lowered}
use pgjobq.Client.Names.{name_chars}

-- The channel of a queue is its name after `pgjobq_`, which has 7 bytes. Of a name in the class of
-- `assertSafeChannel`, each character is one byte.
unfoldable pub safe_channel : String → Bool
safe_channel queue = leb 1 (count queue) && name_chars queue && leb (7 + count queue) 63

unfoldable pub codes_eq : List ℕ → List ℕ → Bool
codes_eq [] [] = true
codes_eq [] (d ∷ ds) = false
codes_eq (c ∷ cs) [] = false
codes_eq (c ∷ cs) (d ∷ ds) = c == d && codes_eq cs ds

-- `queueForChannel`, of the channel of the given queue.
unfoldable pub queue_for_channel : String → List String → Option String
unfolding codes_eq lowered
queue_for_channel channel [] = none
queue_for_channel channel (q ∷ queues) =
    let rest = queue_for_channel channel queues in
    if codes_eq (lowered q) (lowered channel) then some q else rest

pub record ListenerOptions : Type 0 where
  pub queues : List String
  pub reconnect_initial_ms : ℕ
  pub reconnect_max_ms : ℕ

pub record Listener : Type 0 where
  pub connected : Bool
  pub attempt : ℕ

-- What becomes of a connection: it is refused, or lasts until it ends or until it fails.
pub data Connection : Type 0 where
  refuses ends fails : Connection

-- The delay of the loop's `catch`, before the jitter.
unfoldable pub reconnect_delay : ListenerOptions → ℕ → ℕ
reconnect_delay o attempt =
    min o.reconnect_max_ms (o.reconnect_initial_ms * 2 ^ min (attempt - 1) 10)

-- The queues whose channels a connection listens to: the loop over them stops at the first channel that
-- `assertSafeChannel` refuses.
unfoldable pub listened : List String → List String
unfolding safe_channel
listened [] = []
listened (q ∷ queues) = let rest = listened queues in if safe_channel q then q ∷ rest else []

-- A turn of `loop`: the state while the connection is up, if it comes up; the queues that it listens to, with
-- its handler attached, so that a notification of one of them wakes the pool; whether the connection is
-- left open when the turn is over, since nothing closes it after an error; the state after; and the delay
-- before the next turn, if there is one.
pub record Turn : Type 0 where
  pub heard : List String
  pub left_open : Bool
  pub up : Option Listener
  pub after : Listener
  pub delay : Option ℕ

abbrev pub caught : ListenerOptions → Option Listener → List String → Bool → Listener → Turn
unfolding reconnect_delay
caught o up heard left_open l = record {
  heard = heard;
  left_open = left_open;
  up = up;
  after = record { connected = false; attempt = suc l.attempt };
  delay = some (reconnect_delay o (suc l.attempt));
}

abbrev pub listening : Listener
listening = record { connected = true; attempt = 0 }

unfoldable pub turn : ListenerOptions → Connection → Listener → Turn
unfolding safe_channel reconnect_delay listened
turn o Connection.refuses l = caught o none [] false l
turn o Connection.ends l =
    if all safe_channel o.queues
    then record {
      heard = o.queues;
      left_open = false;
      up = some listening;
      after = record { connected = false; attempt = 0 };
      delay = none;
    }
    else caught o none (listened o.queues) true l
turn o Connection.fails l =
    if all safe_channel o.queues
    then caught o (some listening) o.queues false listening
    else caught o none (listened o.queues) true l

unfoldable pub turns : ListenerOptions → List Connection → Listener → List Turn
unfolding turn
turns o [] l = []
turns o (c ∷ cs) l = turn o c l ∷ turns o cs (turn o c l).after
