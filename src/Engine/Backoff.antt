-- ===== src/Engine/Backoff.antt =====
-- packages/core/src/engine/backoff.ts, over the arithmetic of JavaScript's numbers that it uses.
pub mod Ceiling
use pgjobq.Base.{ℕ, zero, suc, ◌-◌, ◌≤◌, Bool, true, false, not, List, [], ◌∷◌, if◌then◌else◌}
use pgjobq.Types.{JitterStrategy}

-- The numbers and their operations: `Math.pow`, `*`, `+`, `/ 2`, `Math.min`, `Number.isFinite`, `<= 0`
-- and `Math.round`, with an order.
pub record Numbers : Type 1 where
  pub Number : Type 0
  pub zero_number : Number
  pub one_number : Number
  pub pow : Number → ℕ → Number
  pub times : Number → Number → Number
  pub plus : Number → Number → Number
  pub half : Number → Number
  pub min_of : Number → Number → Number
  pub is_finite : Number → Bool
  pub is_positive : Number → Bool
  pub round : Number → ℕ
  pub AtMost : Number → Number → Type 0

module _ (n : Numbers) where
  pub record BackoffOptions : Type 0 where
    pub initial_ms : n.Number
    pub multiplier : n.Number
    pub max_ms : n.Number
    pub jitter : JitterStrategy

  abbrev raw_delay : BackoffOptions → ℕ → n.Number
  raw_delay o attempt = n.times o.initial_ms (n.pow o.multiplier (attempt - 1))

  -- `baseDelayMs`
  unfoldable pub base_delay_ms : ℕ → BackoffOptions → n.Number
  base_delay_ms zero o = n.zero_number
  base_delay_ms (suc attempt) o =
      if n.is_finite (raw_delay o (suc attempt))
      then n.min_of o.max_ms (raw_delay o (suc attempt))
      else o.max_ms

  abbrev jittered : JitterStrategy → n.Number → n.Number → n.Number
  jittered JitterStrategy.none base draw = base
  jittered JitterStrategy.equal base draw = n.plus (n.half base) (n.times draw (n.half base))
  jittered JitterStrategy.full base draw = n.times draw base

  -- `nextDelayMs`, with its draw from [0, 1).
  unfoldable pub next_delay_ms : n.Number → ℕ → BackoffOptions → ℕ
  unfolding base_delay_ms
  next_delay_ms draw attempt o =
      let base = base_delay_ms attempt o in
      if n.is_positive base then n.round (jittered o.jitter base draw) else 0
