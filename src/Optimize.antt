-- ===== src/Optimize.antt =====
-- The optimizer, src/optimize/: variants of healthy code compete on one measured objective.
pub mod Model
pub mod Measure
pub mod Judge
pub mod Report
pub mod Engine
