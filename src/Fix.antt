-- ===== src/Fix.antt =====
-- src/fix/: candidate patches, the gate that accepts them, and the campaign that proves them.
pub mod Model
pub mod Gate
pub mod Patch
pub mod Diff
pub mod Engine
pub mod Prove
pub mod Generator
