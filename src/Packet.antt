-- ===== src/Packet.antt =====
-- The wire format of src/packet.rs and the packets that carry it.
pub mod Bytes
pub mod Header
pub mod Codec
pub mod Accepts
pub mod Total
pub mod Types
pub mod Set
pub mod Build
pub mod Segments
mod Tests
