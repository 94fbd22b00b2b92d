-- ===== src/Config.antt =====
-- packages/core/src/config.ts: the settings, and the checks that they pass at the start. The values are
-- those that `configSchema` has coerced from the environment.
pub mod Problems
pub mod Checks
use pgjobq.Base.{
  ℕ, ◌+◌, ◌*◌, String, Bool, true, false, ◌&&◌, ◌||◌, not, Option, none, some, List, [], ◌∷◌, ◌++◌,
  any, all, ltb, leb, ◌==◌, str_eq, length, if◌then◌else◌,
}
use pgjobq.Base.Text.{codes, lowered, is_prefix, contains, utf16_length}
use pgjobq.Types.{JitterStrategy}

pub data NodeEnv : Type 0 where
  development test production : NodeEnv

-- A number that need not be whole, as a fraction with a positive denominator.
pub record Fraction : Type 0 where
  pub numerator : ℕ
  pub denominator : ℕ

pub record Config : Type 0 where
  pub node_env : NodeEnv
  pub database_url : String
  pub db_pool_max : ℕ
  pub db_pool_min : ℕ
  pub db_statement_timeout_ms : ℕ
  pub db_connect_timeout_ms : ℕ
  pub log_payloads : Bool
  pub worker_queues : List String
  pub worker_concurrency : ℕ
  pub worker_claim_batch_max : ℕ
  pub worker_poll_interval_ms : ℕ
  pub worker_job_timeout_ms : ℕ
  pub worker_shutdown_grace_ms : ℕ
  pub worker_heartbeat_fraction : Fraction
  pub default_max_attempts : ℕ
  pub default_lease_seconds : ℕ
  pub max_payload_bytes : ℕ
  pub backoff_initial_ms : ℕ
  pub backoff_multiplier : Fraction
  pub backoff_max_ms : ℕ
  pub backoff_jitter : JitterStrategy
  pub max_error_history : ℕ
  pub max_error_text_bytes : ℕ
  pub reaper_enabled : Bool
  pub reaper_interval_ms : ℕ
  pub reaper_batch_max : ℕ
  pub scheduler_enabled : Bool
  pub scheduler_interval_ms : ℕ
  pub scheduler_batch_max : ℕ
  pub retention_enabled : Bool
  pub retention_interval_ms : ℕ
  pub retention_batch_max : ℕ
  pub retention_archive : Bool
  pub port : ℕ
  pub api_bootstrap_key : Option String
  pub rate_limit_window_ms : ℕ
  pub rate_limit_max : ℕ
  pub sse_max_subscribers : ℕ

-- A number of `configSchema`, with its bounds.
pub record Range : Type 0 where
  pub low : ℕ
  pub value : ℕ
  pub high : ℕ

abbrev pub range : ℕ → ℕ → ℕ → Range
range low high value = record { low = low; value = value; high = high }

abbrev pub ranges : Config → List Range
ranges c =
    range 1 500 c.db_pool_max
    ∷ range 0 500 c.db_pool_min
    ∷ range 100 600000 c.db_statement_timeout_ms
    ∷ range 100 120000 c.db_connect_timeout_ms
    ∷ range 1 10000 c.worker_concurrency
    ∷ range 1 1000 c.worker_claim_batch_max
    ∷ range 10 300000 c.worker_poll_interval_ms
    ∷ range 100 86400000 c.worker_job_timeout_ms
    ∷ range 0 600000 c.worker_shutdown_grace_ms
    ∷ range 1 1000 c.default_max_attempts
    ∷ range 1 86400 c.default_lease_seconds
    ∷ range 1 10485760 c.max_payload_bytes
    ∷ range 0 3600000 c.backoff_initial_ms
    ∷ range 0 604800000 c.backoff_max_ms
    ∷ range 1 100 c.max_error_history
    ∷ range 64 1048576 c.max_error_text_bytes
    ∷ range 100 3600000 c.reaper_interval_ms
    ∷ range 1 100000 c.reaper_batch_max
    ∷ range 100 3600000 c.scheduler_interval_ms
    ∷ range 1 10000 c.scheduler_batch_max
    ∷ range 1000 86400000 c.retention_interval_ms
    ∷ range 1 100000 c.retention_batch_max
    ∷ range 1 65535 c.port
    ∷ range 1000 3600000 c.rate_limit_window_ms
    ∷ range 1 1000000 c.rate_limit_max
    ∷ range 1 10000 c.sse_max_subscribers
    ∷ []

abbrev pub in_range : Range → Bool
in_range r = leb r.low r.value && leb r.value r.high

-- From 0.05 to 0.9, and from 1 to 100.
abbrev pub is_heartbeat_fraction : Fraction → Bool
is_heartbeat_fraction f =
    leb 1 f.denominator
    && leb (5 * f.denominator) (100 * f.numerator)
    && leb (10 * f.numerator) (9 * f.denominator)

abbrev pub is_multiplier : Fraction → Bool
is_multiplier f =
    leb 1 f.denominator && leb f.denominator f.numerator && leb f.numerator (100 * f.denominator)

-- The constraints of `configSchema`.
unfoldable pub schema_admits : Config → Bool
unfolding utf16_length
schema_admits c =
    leb 1 (utf16_length c.database_url)
    && (is_multiplier c.backoff_multiplier
        && (is_heartbeat_fraction c.worker_heartbeat_fraction && all in_range (ranges c)))

-- The problems of `validateCrossField`.
pub data Problem : Type 0 where
  pool_min_above_max backoff_initial_above_max concurrency_above_pool : Problem
  heartbeat_after_lease key_missing key_short key_placeholder payloads_logged : Problem

abbrev pub words : List String
words = "dev" ∷ "test" ∷ "insecure" ∷ "example" ∷ "password" ∷ "secret" ∷ []

-- `me` here, or after one character that does not end a line.
abbrev pub ends_change : List ℕ → Bool
unfolding is_prefix
ends_change [] = false
ends_change (c ∷ s) =
    is_prefix (codes "me") (c ∷ s)
    || (not (any (λ n. c == n) (10 ∷ 13 ∷ 8232 ∷ 8233 ∷ [])) && is_prefix (codes "me") s)

unfoldable pub ends_change_after : ℕ → List ℕ → Bool
unfolding is_prefix
ends_change_after n [] = false
ends_change_after ℕ.zero s = ends_change s
ends_change_after (ℕ.suc n) (c ∷ s) = ends_change_after n s

-- `change.?me`, in lower case.
unfoldable pub has_change_me : List ℕ → Bool
unfolding is_prefix ends_change_after
has_change_me [] = false
has_change_me (c ∷ s) =
    (is_prefix (codes "change") (c ∷ s) && ends_change_after 6 (c ∷ s)) || has_change_me s

-- The pattern of a placeholder.
unfoldable pub is_placeholder : String → Bool
unfolding contains lowered has_change_me
is_placeholder key =
    any (λ w. contains (codes w) (lowered key)) words || has_change_me (lowered key)

-- `if (…) problems.push(…)`, before the problems that follow.
abbrev pub told_if : Bool → Problem → List Problem → List Problem
told_if b p rest = if b then p ∷ rest else rest

unfoldable pub key_problems : Option String → List Problem → List Problem
unfolding utf16_length is_placeholder
key_problems none rest = key_missing ∷ rest
key_problems (some key) rest =
    if utf16_length key == 0
    then key_missing ∷ rest
    else if ltb (utf16_length key) 32
    then key_short ∷ rest
    else told_if (is_placeholder key) key_placeholder rest

unfoldable pub production_problems : NodeEnv → Option String → Bool → List Problem
unfolding key_problems
production_problems development key logged = []
production_problems test key logged = []
production_problems production key logged = key_problems key (told_if logged payloads_logged [])

abbrev pub lease_ms : Config → ℕ
lease_ms c = c.default_lease_seconds * 1000

-- `validateCrossField`; the heartbeat's product is compared with the lease times the denominator.
unfoldable pub validate_cross_field : Config → List Problem
unfolding production_problems
validate_cross_field c = told_if (ltb c.db_pool_max c.db_pool_min) pool_min_above_max (
    told_if (ltb c.backoff_max_ms c.backoff_initial_ms) backoff_initial_above_max (
      told_if (ltb (c.db_pool_max * 10) c.worker_concurrency) concurrency_above_pool (
        told_if
          (leb (lease_ms c * c.worker_heartbeat_fraction.denominator)
            (lease_ms c * c.worker_heartbeat_fraction.numerator))
          heartbeat_after_lease
          (production_problems c.node_env c.api_bootstrap_key c.log_payloads))))

-- What `loadConfig` does: it returns the settings, or throws a ConfigError with the problems of the
-- schema, or with those across fields.
pub data Loaded : Type 0 where
  loaded : Config → Loaded
  invalid_fields : Loaded
  invalid_together : List Problem → Loaded

abbrev pub checked : Config → List Problem → Loaded
checked c [] = loaded c
checked c (p ∷ ps) = invalid_together (p ∷ ps)

-- `loadConfig`, from the coerced values on.
unfoldable pub load_config : Config → Loaded
unfolding schema_admits validate_cross_field
load_config c = if schema_admits c then checked c (validate_cross_field c) else invalid_fields
