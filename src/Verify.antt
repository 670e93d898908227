-- ===== src/Verify.antt =====
-- src/verify/: does a variant still behave as the code it was made from?
pub mod Differential
pub mod Invariants
pub mod Crawl
