-- ===== src/Lib.antt =====
-- async-udx: reliable, multiplexed and congestion controlled streams over UDP.
--
-- A socket owns the system's UDP socket. It decodes the header of each datagram and hands the packet
-- to the stream that the header names, through a channel; it takes packet sets, datagrams and the
-- notice of dropped streams from a channel that all streams share, and sends them in batches. A stream
-- cuts what is written into packets with consecutive numbers, keeps them until they are acknowledged,
-- and sends them again on a timeout; it puts arriving packets in order for its reader. Each socket and
-- each stream has a driver task that polls it.
--
-- Where what is modelled, with the files of the repository:
--   Packet/Bytes, Header       `Header` and `read_u32_le` of src/packet.rs
--   Packet/Types, Set          packets, buffers, datagrams and packet sets of src/packet.rs, and
--                              `Transmit` of udx-udp/src/proto.rs
--   Error, Constants           src/error.rs, src/constants.rs and the constants of the other files
--   Stream/State, Defs         `StreamState` and `UdxStreamInner` of src/stream.rs, and how it closes
--   Stream/Ack, Timeouts       acknowledgements, round trip times, windows, timeouts, retransmission
--   Stream/Transmit, Write     `poll_transmit`, `send_data_packet` and `poll_write`
--   Stream/Receive, Drive      `handle_incoming`, `read_next`, `poll_read`, and `StreamDriver`
--   Stream/Run                 the steps of a stream: calls, polls, and what the socket does to it
--   Socket/Events, Defs        `UdxSocketInner` and `UdxSocket` of src/socket.rs and the messages
--   Socket/Slices              `iovectors_from_buf` of src/socket.rs, which cuts the receive buffer
--   Socket/Receive, Transmit   `poll_recv` and `process_packet`; `poll_transmit` and `track_tx`
--   Socket/Driver, Run         `SocketDriver`, and the steps of a socket
--   Net/Transfer, Run, Duplex  two streams and their sockets, with a network that loses, repeats and
--                              reorders datagrams; in Run the writer may be told anything, in Duplex
--                              each side is told only what the other has sent
-- Stream/Invariant is a rule for invariants of a stream: an instance of `Invariant` says that they
-- survive the changes that the code is made of, and its children derive that polls and calls keep them.
-- Stream/Arriving and Stream/Kept are the instance for what concerns the reader and the ends. The other
-- files hold lemmas and theorems, and are named for what they prove. Functions keep the names of the
-- source; a part of a long function is a definition of its own, which says which part it is.
--
-- How: bytes are numbers below 256, and a `usize` has 64 bits; sums and differences of machine integers
-- wrap around (`add32`, `add64`, `sub64`). A call that fails answers `err`, one that panics `panic`. The
-- lock of a socket or a stream makes each call and each poll one step. A packet's atomics stand in a
-- store, since every clone of its `Arc` reads and writes them. A channel is the list of what it holds,
-- with a flag where its other end may be gone. A waker is a number, and `woken` lists those used. The
-- clock, timers, `BATCH_SIZE`, the number of segments that the system takes, and what the system
-- answers to a send, to a receive, or to a question for the socket's address are arguments of the polls.
-- A time is a number of nanoseconds, and `checked_add` panics from `instant_limit` on, where it is
-- unwrapped. A received datagram that is longer than its slice of the buffer panics, and so does a socket
-- whose address is not known. The slices of a SACK payload are in range by a proof that `word` asks for.
--
-- Fuel: `advance` and `read_loop` get one round more than there are packets; a round goes on only
-- by a packet that it takes or passes. `write_loop` gets a round for each byte, of which every
-- round sends one at least. `chunks_mut` gets a round for each byte of the buffer. `sack_ranges`
-- gets a round for each byte of the payload, and reads eight in each. `recv_loop` has the rounds
-- that `MAX_LOOP` allows. The other loops run over a list or a range.
--
-- Not modelled: the copied libraries (src/mutex.rs, and udx-udp but for `Transmit`), logging, with the
-- address that `connect` unwraps for its message only, the formatting of values for debugging, the
-- rates that `track_tx` prints, the bytes in the receive buffer, and the examples and
-- benchmarks, which only use the library.
pub mod Prelude
pub mod Constants
pub mod Error
pub mod Map
pub mod Packet
pub mod Socket
pub mod Stream
pub mod Net
