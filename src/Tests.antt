-- ===== src/Tests.antt =====
-- Runs at concrete inputs, and the theorems at concrete inputs.
mod Core
mod Launcher
mod Overlap
mod Merge
mod Tree
mod Cargo
mod Policy
mod Resources
mod Walk
mod Workspace
mod Plan
mod Run
mod Landlock
mod Bwrap
mod Delegated
