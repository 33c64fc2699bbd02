-- ===== src/Linux.antt =====
-- The crate cage-linux.
pub mod Overlap
pub mod Sources
pub mod CargoHome
pub mod Plan
pub mod Merge
pub mod Launcher
pub mod Mounts
pub mod Tree
pub mod Resources
pub mod Run
pub mod Bwrap
pub mod Delegated
