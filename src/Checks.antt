-- ===== src/Checks.antt =====
-- The theorems at concrete inputs.
pub mod Samples
pub mod Alerts
pub mod Others
pub mod Polls
pub mod Health
pub mod Images
pub mod Shared
pub mod Egress
