-- ===== src/Stream/Writing.antt =====
-- What a write does: a rule for the loop of `poll_write` in src/stream.rs, and what it sends.
pub mod Loop
pub mod Sent
