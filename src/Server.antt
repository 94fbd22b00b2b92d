-- ===== src/Server.antt =====
-- packages/server/src: the HTTP API around the client.
pub mod Auth
pub mod Reply
pub mod Access
pub mod Schedules
pub mod Calls
pub mod Routes
pub mod Events
