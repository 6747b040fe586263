-- ===== src/Stream.antt =====
-- The streams of src/stream.rs.
pub mod State
pub mod Defs
pub mod Ack
pub mod Timeouts
pub mod Transmit
pub mod Receive
pub mod Write
pub mod Drive
pub mod Outgoing
pub mod Inflight
pub mod Writing
pub mod Run
pub mod Invariant
pub mod Arriving
pub mod Kept
pub mod Closing
pub mod Panics
pub mod Delivery
pub mod Batches
pub mod Sides
pub mod Sacks
pub mod Polls
pub mod Reading
pub mod Acked
pub mod Lost
pub mod Clock
pub mod Resending
pub mod RoundTrip
mod Tests
mod SendTests
mod ResendTests
mod RunTests
