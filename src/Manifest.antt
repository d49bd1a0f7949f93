-- ===== src/Manifest.antt =====
-- Manifests of a tree and their comparison (src/core/state.rs, src/core/sync/mod.rs).
pub mod Entry
pub mod Match
pub mod Diff
pub mod Lists
pub mod Placed
pub mod Account
pub mod Verdict
pub mod Repair
pub mod Members
pub mod Trees
pub mod Steps
pub mod Mirror
pub mod Converge
mod Tests
