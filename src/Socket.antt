-- ===== src/Socket.antt =====
-- The socket of src/socket.rs: it routes datagrams to streams, and sends what the streams queue.
pub mod Events
pub mod Defs
pub mod Slices
pub mod Cutting
pub mod Receive
pub mod Transmit
pub mod Driver
pub mod Run
pub mod Routing
pub mod Datagrams
pub mod Receiving
pub mod Queues
pub mod Buffer
pub mod Order
pub mod Wire
mod Tests
