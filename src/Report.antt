-- ===== src/Report.antt =====
-- The report of a Compare (src/core/sync/mod.rs).
pub mod Build
pub mod Kinds
pub mod Labels
pub mod Sample
mod Tests
