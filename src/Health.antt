-- ===== src/Health.antt =====
-- internal/storage/status.go: the health of a service, and the alerts that its changes produce.
pub mod Types
pub mod Rollup
pub mod Order
pub mod Latest
pub mod Newest
pub mod Machine
pub mod Produce
pub mod Spec
pub mod Refines
pub mod Stored
pub mod Promised
pub mod Failures
pub mod Steady
pub mod Live
