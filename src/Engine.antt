-- ===== src/Engine.antt =====
-- packages/core/src/engine: the loops that run beside the workers.
pub mod Scheduler
pub mod Reaper
pub mod Retention
pub mod Backoff
