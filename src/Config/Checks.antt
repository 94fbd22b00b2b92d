-- ===== src/Config/Checks.antt =====
-- Config: what `loadConfig` makes of the settings.
use pgjobq.Base.{
  ℕ, ◌*◌, ◌≤◌, ◌<◌, ◌≡◌, refl, inl, inr, true, false, List, [], ◌∷◌, arith, leb, In, all, all-In,
  Bool-cases, and_left, and_right,
}
use pgjobq.Base.Text.{utf16_length}
use pgjobq.Config.{
  Config, Range, range, Fraction, is_heartbeat_fraction, is_multiplier, ranges, in_range,
  schema_admits, Problem, lease_ms, validate_cross_field, Loaded, loaded, invalid_fields,
  invalid_together, checked, load_config,
}
use pgjobq.Config.Problems.{Violates, IsBounded, told-Violates, Violates-told}

times_le : (k n d : ℕ) → n ≤ d → k * n ≤ k * d
times_le ℕ.zero n d h = omega arith
times_le (ℕ.suc k) n d h = omega (arith, times_le k n d h, h)

before_lease :
    (k : ℕ) (f : Fraction)
    → 1 ≤ k
    → is_heartbeat_fraction f ≡ true
    → k * f.numerator < k * f.denominator
before_lease ℕ.zero f h a = absurd (omega (arith, h))
before_lease (ℕ.suc k) f h a =
    let less : f.numerator < f.denominator = ground (arith, a) in
    let rest : k * f.numerator ≤ k * f.denominator =
      times_le k f.numerator f.denominator (omega (arith, less)) in
    omega (arith, less, rest)

in_range-within : (r : Range) → in_range r ≡ true → (r.low ≤ r.value) × (r.value ≤ r.high)
in_range-within r h = (ground (arith, h), ground (arith, h))

admitted-IsBounded : (c : Config) → schema_admits c ≡ true → IsBounded c
unfolding schema_admits all
admitted-IsBounded c h =
    let numbers = and_right (leb 1 (utf16_length c.database_url)) _ h in
    let others = and_right (is_multiplier c.backoff_multiplier) _ numbers in
    let all_in = and_right (is_heartbeat_fraction c.worker_heartbeat_fraction) _ others in
    let lease =
      in_range-within (range 1 86400 c.default_lease_seconds)
        (all-In in_range (ranges c) _ all_in lease_listed) in
    record {
      within = λ r m. in_range-within r (all-In in_range (ranges c) r all_in m);
      beats =
          before_lease (lease_ms c) c.worker_heartbeat_fraction (omega (arith, lease.0))
            (and_left _ _ others);
    }
  where
    lease_listed : In (range 1 86400 c.default_lease_seconds) (ranges c)
    lease_listed = inr (inr (inr (inr (inr (inr (inr (inr (inr (inr (inl refl))))))))))

-- What the start does with the settings c.
abbrev pub Verdict : Config → Loaded → Type 0
Verdict c (loaded d) = (d ≡ c) × IsBounded c × ((p : Problem) → ¬ Violates c p)
Verdict c invalid_fields = schema_admits c ≡ false
Verdict c (invalid_together ps) =
    (p : Problem) → (In p ps → Violates c p) × (Violates c p → In p ps)

checked-Verdict :
    (c : Config) (ps : List Problem)
    → IsBounded c
    → ((p : Problem) → (In p ps → Violates c p) × (Violates c p → In p ps))
    → Verdict c (checked c ps)
checked-Verdict c [] b same = (refl, b, λ p h. (same p).1 h)
checked-Verdict c (p ∷ ps) b same = same

-- The settings are loaded as they are only if each number is within its bounds, heartbeats come before
-- the end of a lease, and no problem is there: the pool and the delays are in order, the concurrency is
-- at most ten times the pool, and in production the key is there, long enough and no placeholder, and
-- payloads are not logged. Otherwise a setting is out of the schema, or all the problems that are
-- there are told, and no others.
pub load_config-Verdict : (c : Config) → Verdict c (load_config c)
unfolding load_config
load_config-Verdict c = elim (Bool-cases (schema_admits c)) [
  | inr n ↦ rw (n, load_config) n
  | inl y ↦
      let b = admitted-IsBounded c y in
      rw (y, load_config)
        (checked-Verdict c (validate_cross_field c) b
          (λ p. (told-Violates c p b, Violates-told c p)))
]
