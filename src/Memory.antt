-- ===== src/Memory.antt =====
-- The shared budget of transfer buffers (src/core/sync/mod.rs).
pub mod Permits
pub mod Budget
mod Tests
