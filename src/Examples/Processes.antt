-- ===== src/Examples/Processes.antt =====
-- Labels, a listener and a wait for the database at concrete inputs.
use pgjobq.Base.{
  ◌≡◌, Option, ℕ, true, any, String, false, some, List, [], ◌∷◌, arith, all, ◌==◌, if◌then◌else◌,
}
use pgjobq.Base.Text.{utf16_length, contains, is_prefix, lowered, lower}
use pgjobq.Types.{JitterStrategy}
use pgjobq.Config.{
  production, Config, schema_admits, key_placeholder, payloads_logged, is_placeholder, key_problems,
  production_problems, validate_cross_field, invalid_together, load_config,
}
use pgjobq.Config.Checks.{Verdict, load_config-Verdict}
use pgjobq.Listener.{ListenerOptions, Listener, Connection}
use pgjobq.Db.{is_transient, wrapped, Ping, pong, failed, wait_for_database}
use pgjobq.Db.Waiting.{refused, WaitsFrom, wait_for_database-WaitsFrom}

abbrev long_name : String
long_name = "reports-of-the-finance-department-for-the-quarter-and-the-year"

abbrev options : List String → ListenerOptions
options queues = record { queues = queues; reconnect_initial_ms = 500; reconnect_max_ms = 30000 }

abbrev off : Listener
off = record { connected = false; attempt = 0 }

abbrev weather : List Connection
weather = Connection.refuses ∷ Connection.fails ∷ Connection.ends ∷ []

-- The database is starting up, and then it is there.
abbrev starting : ℕ → Ping
starting n =
    if n == 1
    then failed (wrapped (record { code = some "57P03"; message = some "starting up" }))
    else pong

wait_for_database-WaitsFrom_example :
    WaitsFrom 500 10000 starting 4 1 (wait_for_database 500 10000 starting 5)
    × ((message : Option String) → is_transient (refused message) ≡ false)
wait_for_database-WaitsFrom_example = wait_for_database-WaitsFrom 500 10000 starting 5 (omega arith)

-- Settings of production with a key that looks made up and logged payloads.
abbrev settings : Config
settings = record {
  node_env = production;
  database_url = "postgres://db/jobs";
  db_pool_max = 10;
  db_pool_min = 0;
  db_statement_timeout_ms = 10000;
  db_connect_timeout_ms = 10000;
  log_payloads = true;
  worker_queues = "mail" ∷ [];
  worker_concurrency = 10;
  worker_claim_batch_max = 20;
  worker_poll_interval_ms = 1000;
  worker_job_timeout_ms = 300000;
  worker_shutdown_grace_ms = 30000;
  worker_heartbeat_fraction = record { numerator = 1; denominator = 2 };
  default_max_attempts = 5;
  default_lease_seconds = 30;
  max_payload_bytes = 262144;
  backoff_initial_ms = 1000;
  backoff_multiplier = record { numerator = 2; denominator = 1 };
  backoff_max_ms = 3600000;
  backoff_jitter = JitterStrategy.full;
  max_error_history = 5;
  max_error_text_bytes = 4096;
  reaper_enabled = true;
  reaper_interval_ms = 5000;
  reaper_batch_max = 1000;
  scheduler_enabled = true;
  scheduler_interval_ms = 5000;
  scheduler_batch_max = 100;
  retention_enabled = true;
  retention_interval_ms = 60000;
  retention_batch_max = 1000;
  retention_archive = false;
  port = 3000;
  api_bootstrap_key = some "pgjq_dev-0123456789abcdef0123456789";
  rate_limit_window_ms = 60000;
  rate_limit_max = 600;
  sse_max_subscribers = 50;
}

load_config-Verdict_example :
    Verdict settings (invalid_together (key_placeholder ∷ payloads_logged ∷ []))
unfolding load_config schema_admits all utf16_length validate_cross_field production_problems
    key_problems is_placeholder contains is_prefix lowered lower any
load_config-Verdict_example = load_config-Verdict settings
