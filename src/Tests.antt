-- ===== src/Tests.antt =====
-- The theorems at concrete data.
mod Memory
pub mod Etc
pub mod Checks
pub mod Whole
pub mod Runs
pub mod Servers
pub mod Nodes
