-- ===== src/Filter.antt =====
-- The import filter of a source: work/filter.
pub mod Types
pub mod Rules
pub mod Verdicts
pub mod Stages
pub mod Quality
pub mod QualityLaws
pub mod QualityStage
pub mod Report
pub mod ReportLaws
pub mod Compile
pub mod Signature
pub mod Cache
pub mod Apply
pub mod ApplyLaws
pub mod Kept
pub mod Plain
pub mod Unfiltered
mod Tests
mod CacheTests
