-- ===== src/Strategies.antt =====
-- src/dbextractors/core/strategies: the loading strategies and the helpers they share.
pub mod Batching
pub mod Watermark
pub mod HashDiff
pub mod Full
pub mod Incremental
pub mod BySource
pub mod Fingerprint
pub mod Abra
pub mod ParentIncremental
