-- ===== src/Paths.antt =====
-- internal/scanner/path_filter.go: which paths of a repository are scanned.
pub mod Filter
pub mod Skips
