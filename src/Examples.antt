-- ===== src/Examples.antt =====
-- Small machines and inputs, and the theorems applied to them.
mod Machine
mod Promotions
mod Operated
mod Jobs
mod Fixes
mod Proofs
mod Runs
mod Campaigns
mod Loads
mod Pipeline
mod Optimizing
mod Publishing
