-- ===== src/Core.antt =====
-- The crate cage-core: errors, policies, requests and the shared path check.
pub mod Error
pub mod Limits
pub mod Environment
pub mod Request
pub mod Paths
