-- ===== src/Version.antt =====
-- internal/ci/version.go: the allocation of the next release version.
pub mod Parse
pub mod Allocate
pub mod Newest
