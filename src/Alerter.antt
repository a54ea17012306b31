-- ===== src/Alerter.antt =====
-- internal/alerter: the worker that claims dispatches, hands them to the sinks and records how that
-- ended.
pub mod Routing
pub mod Worker
pub mod Filters
pub mod Delivered
pub mod Polls
pub mod Claims
