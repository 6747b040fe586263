-- ===== src/Net.antt =====
-- Two streams with the network between them.
pub mod Log
pub mod Sets
pub mod Made
pub mod Held
pub mod Sender
pub mod Driver
pub mod Acks
pub mod Answering
pub mod Covered
pub mod Duplex
pub mod Lossless
pub mod Complete
pub mod Writing
pub mod Wire
pub mod Transfer
pub mod Run
pub mod Arrival
pub mod Delivered
mod Example
mod Tests
