-- ===== src/Delta.antt =====
-- The rsync-style block delta (src/core/sync/delta.rs), in child modules.
pub mod Rolling
pub mod Sums
pub mod Wire
pub mod Apply
pub mod Build
pub mod Encoding
pub mod Matching
pub mod RoundTrip
mod Tests
