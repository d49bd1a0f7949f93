-- ===== src/Store.antt =====
-- The state store (src/core/state.rs): the tables of its database and the operations on them.
pub mod Tables
pub mod Cycles
pub mod Ordered
pub mod OpenCycle
pub mod Events
pub mod Pruning
pub mod Between
pub mod Recording
pub mod Backlog
pub mod Offsets
pub mod Targets
pub mod Views
pub mod Targeting
pub mod Configured
pub mod Advance
pub mod Closing
pub mod Due
pub mod Tasks
pub mod Notices
pub mod Raised
pub mod Gap
mod Tests
