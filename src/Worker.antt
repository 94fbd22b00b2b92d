-- ===== src/Worker.antt =====
-- packages/core/src/worker: what a worker process does around the statements.
pub mod Runner
pub mod Pool
pub mod Registry
pub mod Delivery
