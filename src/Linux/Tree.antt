-- ===== src/Linux/Tree.antt =====
-- cage-linux/src/tree.rs: the checks on the trees that a sandbox shares with its host.
pub mod Roots
pub mod Hardlinks
pub mod MountTable
pub mod Walk
pub mod Validate
