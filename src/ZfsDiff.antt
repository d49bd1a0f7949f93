-- ===== src/ZfsDiff.antt =====
-- Reading and merging the output of `zfs diff` (src/core/sync/mod.rs).
pub mod Paths
pub mod Escapes
pub mod Union
mod Tests
