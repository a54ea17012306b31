-- ===== src/Summary.antt =====
-- internal/storage/summary_cache.go: the cache of the dashboard summary.
pub mod Cache
pub mod Runs
pub mod Fresh
