-- ===== src/Promote.antt =====
-- src/promote/: certificates, the policy gate, promotion through git, and its rollback.
pub mod Policy
pub mod Hex
pub mod Certificate
pub mod Git
pub mod Record
pub mod Slug
pub mod Bundle
pub mod Engine
pub mod Operator
pub mod Links
pub mod Publish
