-- ===== src/Stream/Delivery.antt =====
-- The receiving side of src/stream.rs against what the other side sent.
pub mod Advance
pub mod Spec
pub mod Reads
pub mod ReadLoop
pub mod Arrivals
pub mod Steps
pub mod Whole
