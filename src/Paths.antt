-- ===== src/Paths.antt =====
-- Relative paths in src/core/sync/mod.rs (the build for Unix): `normalize_rel_path`,
-- `safe_join_rel`, `rel_to_string`, `path_depth`, and the exclude patterns.
pub mod Components
pub mod Safety
pub mod RoundTrip
pub mod Excludes
mod Tests
