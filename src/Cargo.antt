-- ===== src/Cargo.antt =====
-- The crate cage-cargo.
pub mod Args
pub mod Options
pub mod Target
pub mod Lockfile
pub mod Policy
pub mod HostEnvironment
pub mod Driver
pub mod Workspace
