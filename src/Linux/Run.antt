-- ===== src/Linux/Run.antt =====
-- The run of a plan: cage-linux/src/resources.rs (`ResourceGroup`), cage-linux/src/backend/process.rs
-- and cage-linux/src/backend.rs (`run_inner`, `run`).
pub mod Session
pub mod Cgroup
pub mod Group
pub mod Wait
pub mod Capture
pub mod Output
pub mod Inner
pub mod Quiet
