-- ===== src/Incremental.antt =====
-- The incremental pass of a cycle (src/core/sync/mod.rs).
pub mod Plan
pub mod Paths
pub mod Covered
mod Tests
