-- ===== src/Flights.antt =====
-- internal/scanner/repo_singleflight.go: one run of an operation at a time for each repository.
pub mod Group
pub mod Single
pub mod Answered
