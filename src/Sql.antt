-- ===== src/Sql.antt =====
-- The statements of packages/core/src/sql, each a function of the table, the time of its
-- transaction and, under SKIP LOCKED, the rows that other transactions hold.
pub mod Claim
pub mod Report
pub mod Reap
pub mod Query
pub mod Enqueue
pub mod Retention
pub mod Schedule
pub mod Listing
