-- ===== src/Cancel.antt =====
-- Cooperative cancellation (src/core/cancel.rs).
pub mod Ops
pub mod Nesting
mod Tests
