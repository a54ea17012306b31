-- ===== src/Evaluator.antt =====
-- internal/app/alert_evaluator.go: the comparison of the agents and of the repository scans with the
-- baselines that the process keeps, and the events that a change enqueues.
pub mod Types
pub mod Handlers
pub mod Loops
pub mod Phases
pub mod Effects
pub mod Agents
pub mod Scans
pub mod Runs
