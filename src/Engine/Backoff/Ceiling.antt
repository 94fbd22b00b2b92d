-- ===== src/Engine/Backoff/Ceiling.antt =====
-- Engine.Backoff: the delay and its ceiling.
use pgjobq.Base.{ℕ, zero, suc, ◌≤◌, ◌≡◌, true, false, inl, inr, Bool-cases, arith, if_both}
use pgjobq.Types.{JitterStrategy}
use pgjobq.Engine.Backoff.{Numbers, BackoffOptions, base_delay_ms, next_delay_ms, jittered}

-- What IEEE arithmetic keeps of the order: rounding to a number or to an integer is monotone, and so is
-- a product of a positive number with a factor of at most one, or its half and at most as much again.
pub record IsOrdered (n : Numbers) : Type 0 where
  pub at_most_refl : (a : n.Number) → n.AtMost a a
  pub at_most_trans : (a b c : n.Number) → n.AtMost a b → n.AtMost b c → n.AtMost a c
  pub min_left : (a b : n.Number) → n.AtMost (n.min_of a b) a
  pub scaled :
      (r a : n.Number) → n.is_positive a ≡ true → n.AtMost r n.one_number → n.AtMost (n.times r a) a
  pub halves :
      (r a : n.Number)
      → n.is_positive a ≡ true
      → n.AtMost r n.one_number
      → n.AtMost (n.plus (n.half a) (n.times r (n.half a))) a
  pub rounds : (a b : n.Number) → n.AtMost a b → n.round a ≤ n.round b
  pub zero_not_positive : n.is_positive n.zero_number ≡ false

module _ (n : Numbers) (laws : IsOrdered n) where
  base_delay_ms-le :
      (attempt : ℕ) (o : BackoffOptions n)
      → n.is_positive (base_delay_ms n attempt o) ≡ true
      → n.AtMost (base_delay_ms n attempt o) o.max_ms
  unfolding base_delay_ms
  base_delay_ms-le zero o h = absurd (cc (h, laws.zero_not_positive))
  base_delay_ms-le (suc attempt) o h =
      if_both (λ b. n.AtMost b o.max_ms) _ (laws.min_left o.max_ms _) (laws.at_most_refl o.max_ms)

  jittered-le :
      (j : JitterStrategy) (base draw : n.Number)
      → n.is_positive base ≡ true
      → n.AtMost draw n.one_number
      → n.AtMost (jittered n j base draw) base
  jittered-le JitterStrategy.none base draw y h = laws.at_most_refl base
  jittered-le JitterStrategy.equal base draw y h = laws.halves draw base y h
  jittered-le JitterStrategy.full base draw y h = laws.scaled draw base y h

-- Over numbers whose arithmetic keeps the order as IEEE arithmetic does, no retry is put off for
-- longer than the configured maximum, rounded to a millisecond, whatever the attempt, the jitter
-- and the draw from the unit interval.
pub next_delay_ms-le :
    (n : Numbers) (laws : IsOrdered n) (draw : n.Number) (attempt : ℕ) (o : BackoffOptions n)
    → n.AtMost draw n.one_number
    → next_delay_ms n draw attempt o ≤ n.round o.max_ms
unfolding next_delay_ms
next_delay_ms-le n laws draw attempt o h =
    elim (Bool-cases (n.is_positive (base_delay_ms n attempt o))) [
      | inl y ↦ rw y (
          laws.rounds _ _ (
            laws.at_most_trans _ _ _
              (jittered-le n laws o.jitter (base_delay_ms n attempt o) draw y h)
              (base_delay_ms-le n laws attempt o y)))
      | inr x ↦ rw x (omega arith)
    ]
