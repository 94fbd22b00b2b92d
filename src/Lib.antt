-- ===== src/Lib.antt =====
-- pgjobq: a job queue on Postgres, whose workers claim jobs under leases and report under a fence.
--
-- Parts. A job is a row of the table `job`. Clients insert rows; workers claim due rows, run a
-- handler and report; a reaper takes back the rows whose lease has expired; operators cancel,
-- retry, replay and purge; a scheduler inserts the occurrences of its schedules; retention deletes
-- or archives finished rows. They meet in the tables alone, and each mutation of a job is one SQL
-- statement. The server takes requests under keys of its own table and calls the client and the
-- scheduler; the listener only wakes a pool earlier.
--
-- Files.
--   Base        numbers, tests, lists, sorting, and the maps of JavaScript.
--   Types       packages/core/src/types.ts and sql/rows.ts: a row with all its columns.
--   Table       the constraints and unique indexes of packages/core/migrations, and UPDATE: a
--               statement goes through as a whole or fails as a whole with the database's error.
--               Its child modules hold the laws of UPDATE, of the keys and of valid tables.
--   Sql         packages/core/src/sql, one module per file: Claim (claimJobs, claimJobsWithAging),
--               Report (completeJob, failJob, heartbeatJob, acknowledgeCancellation, releaseJob),
--               Reap, Query (the operator's mutations), Listing (the listings, the configuration
--               of queues), Enqueue (insertJob, insertJobsBatch and the lookups), Retention, Schedule.
--   StateMachine  packages/core/src/engine/state-machine.ts.
--   History     any interleaving of these statements, at any times, with the deliveries that the
--               claims have handed out.
--   Errors      packages/core/src/errors.ts, as far as a run depends on it.
--   Migrate     packages/core/src/migrate.ts: migrateUp and assertSchemaCurrent, from the files that
--               were read; whether Postgres runs a script through is a parameter.
--   Worker      packages/core/src/worker: Runner (run, reportFailure, release), Registry, Pool
--               (slots, claims and shutdown), Delivery (one job through insertion, claim and run).
--   Client      packages/core/src/client.ts: Names (validateName), Build (buildRow, queueDefaults),
--               Enqueue, Batch (enqueueBatch), Admin (cancel, retryNow, replay, replayMany, purge,
--               setPaused and the listings), Stats (queueStats, queueLag, and what /queues makes of them).
--   Engine      packages/core/src/engine: Scheduler (tick, shouldFire and the management of
--               schedules, over sql/schedule.sql.ts), Reaper (reapOnce and the passes of run),
--               Backoff (baseDelayMs, nextDelayMs), Retention (pruneOnce, ensurePartitions, the
--               rounds of run).
--   Metrics     packages/core/src/observability/metrics.ts: labelType.
--   Config      packages/core/src/config.ts: the bounds of configSchema, validateCrossField, loadConfig.
--   Db          packages/core/src/db.ts: the classes of errors, waitForDatabase, withTransaction.
--   Listener    packages/core/src/worker/listener.ts: the turns of loop, assertSafeChannel.
--   Server      packages/server/src: Auth (auth.ts: Authenticator, authorizes), Reply and Access
--               (middleware.ts: errorHandler, requireAuth, requireScope), Calls, Schedules and Routes
--               (routes.ts with schemas.ts: the requests, the middleware and the handlers), Events
--               (events.ts: EventStream).
--   Examples    concrete tables and histories.
--
-- How the code is read. A statement takes the database's time and the table, and returns the new
-- table with the rows of its RETURNING, or an error. `FOR UPDATE SKIP LOCKED` has the locks that
-- others hold as a parameter. Several statements of one call are separate steps: what others do to
-- the table in between is a parameter too (Elsewhere). Times are milliseconds, JSON is its text,
-- an id is a number. Loops are structural: over lists, and in `purge` over the source's own bound
-- on the batches. The passes of the reaper and of retention have fuel; one more than the rows that
-- are due is enough. At fuel 0 a loop has not ended, and has no result. SHA-256, the calendar, the
-- rate limiter, the texts of error messages, the cron library, the text of an occurrence's key,
-- `truncate` of errors.ts and the floating-point numbers of the backoff are parameters.
--
-- Not modelled: the network, timers and connections; metrics and logs; the bounds of the archive's
-- partitions, each of which is the number of its month; Express, and the coercion of settings from
-- texts; listDistinctQueues. The runner takes the delay of the backoff as a parameter. A claim
-- returns its rows in the table's order, since Postgres promises none. The texts of errors are
-- left out.
pub mod Base
pub mod Types
pub mod Table
pub mod Sql
pub mod StateMachine
pub mod History
pub mod Errors
pub mod Migrate
pub mod Worker
pub mod Client
pub mod Engine
pub mod Metrics
pub mod Config
pub mod Db
pub mod Listener
pub mod Server
pub mod Examples
