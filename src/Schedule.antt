-- ===== src/Schedule.antt =====
-- When a cycle is due (src/core/scheduler.rs, and the schedule of src/core/config.rs).
pub mod Boundary
pub mod Weeks
pub mod Earliest
mod Tests
