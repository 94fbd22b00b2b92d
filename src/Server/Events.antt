-- ===== src/Server/Events.antt =====
-- packages/server/src/events.ts: the subscribers of the event stream.
pub mod Capped
use pgjobq.Base.{
  ℕ, suc, Bool, true, false, ◌&&◌, not, List, [], ◌∷◌, ◌++◌, where_, ltb, leb, ◌==◌, length,
  if◌then◌else◌,
}

-- The subscribers by their ids, in the order of the Map; the open sockets stand behind them.
pub record EventStream : Type 0 where
  pub max_subscribers : ℕ
  pub subscribers : List ℕ
  pub next_id : ℕ
  pub heartbeat : Bool

-- A write on a subscriber's socket: whether it was taken at once, and the bytes that wait.
pub record Written : Type 0 where
  pub taken : Bool
  pub waiting : ℕ

unfoldable pub start : ℕ → EventStream
start max_subscribers = record {
  max_subscribers = max_subscribers;
  subscribers = [];
  next_id = 1;
  heartbeat = false;
}

-- `subscribe`: whether the request was taken, or answered with 503.
unfoldable pub subscribe : EventStream → EventStream × Bool
subscribe s = if leb s.max_subscribers (length s.subscribers) then (s, false) else (
  record s {
    subscribers = s.subscribers ++ s.next_id ∷ [];
    next_id = suc s.next_id;
    heartbeat = true;
  },
  true,
)

-- The clean-up of a connection that closed or failed.
unfoldable pub disconnect : ℕ → EventStream → EventStream
disconnect id s = record s { subscribers = where_ (λ i. not (i == id)) s.subscribers }

abbrev pub too_slow : Written → Bool
too_slow w = not w.taken && ltb 1000000 w.waiting

-- `publish`, by what became of each write: a subscriber that is too slow is dropped.
unfoldable pub publish : (ℕ → Written) → EventStream → EventStream
publish written s = record s {
  subscribers = where_ (λ i. not (too_slow (written i))) s.subscribers;
}

-- A turn of the timer that `startHeartbeat` sets.
unfoldable pub beat : EventStream → EventStream
beat s = if length s.subscribers == 0 then record s { heartbeat = false } else s

-- `close`
unfoldable pub close : EventStream → EventStream
close s = record s { subscribers = []; heartbeat = false }
