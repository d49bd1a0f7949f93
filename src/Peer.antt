-- ===== src/Peer.antt =====
-- The transport between machines (src/core/machines.rs).
pub mod Lines
pub mod Framing
pub mod Pool
pub mod Chunked
pub mod Reading
pub mod Delivered
pub mod Bodies
pub mod Ndjson
mod Tests
