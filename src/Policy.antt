-- ===== src/Policy.antt =====
-- The policy engine: src/policy_manager.c, src/policy_namespace.c and the policy headers.
pub mod Types
pub mod Pattern
pub mod Config
pub mod Resolve
pub mod Snapshot
pub mod Wire
pub mod Namespace
pub mod Manager
pub mod Endian
pub mod Securityfs
pub mod Kfuncs
