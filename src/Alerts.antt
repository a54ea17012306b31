-- ===== src/Alerts.antt =====
-- The alert outbox of internal/storage/alerts.go: events, the dispatches of an event to its sinks,
-- and the operations on both.
pub mod Types
pub mod Policy
pub mod Status
pub mod Prepare
pub mod Enqueue
pub mod Claim
pub mod Record
pub mod Prune
pub mod Invariant
