-- ===== src/Push.antt =====
-- The push of planned entries to a destination (src/core/sync/mod.rs).
pub mod Plan
pub mod Retry
pub mod Pool
pub mod Settle
pub mod Runs
pub mod Pools
pub mod Ends
pub mod Delivery
pub mod Bounds
mod Tests
