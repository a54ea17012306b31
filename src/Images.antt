-- ===== src/Images.antt =====
-- internal/core/images.go: image references, the comparison of desired with observed images.
pub mod Types
pub mod Parse
pub mod Mutable
pub mod Match
pub mod Compare
pub mod Service
pub mod Metadata
pub mod Unique
pub mod RoundTrip
pub mod Given
pub mod Worst
pub mod Truthful
pub mod Runs
