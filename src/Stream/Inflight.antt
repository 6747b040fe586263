-- ===== src/Stream/Inflight.antt =====
-- The accounting of the sending side of src/stream.rs: `inflight` and the statistics against the
-- packets in `outgoing`.
pub mod Defs
pub mod Acks
pub mod Timers
pub mod Writes
pub mod Steps
