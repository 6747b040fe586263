-- ===== src/Net/Run.antt =====
-- Two streams of src/stream.rs over time, each behind a socket of src/socket.rs: one that is written
-- to, and one that is read from. Between them stand all transmits that the first socket ever queued for
-- the stream: the network may lose their datagrams, and may bring them late, in any order, and again.
use async_udx.Prelude.{ℕ, ◌+◌, ◌<◌, List, [], ◌++◌, length, take, u32_mod}
use async_udx.Packet.Types.{Transmit}
use async_udx.Stream.Defs.{Stream}
use async_udx.Stream.Write.{poll_write}
use async_udx.Stream.Run.{Step, write, deliver, take_messages}
use async_udx.Stream.Writing.Sent.{reported}
use async_udx.Stream.Delivery.Whole.{output}
use async_udx.Net.Transfer.{Sends, Arrives}

-- A step that neither writes nor gives messages to the socket.
unfoldable pub Silent : {s t : Stream} → Step s t → Type 0
Silent (write waker buf s fits) = ⊥
Silent (take_messages left s) = ⊥
Silent _ = Unit

-- A step that takes nothing from the socket.
unfoldable pub Sealed : {s t : Stream} → Step s t → Type 0
Sealed (deliver event s) = ⊥
Sealed _ = Unit

-- The transmits, the bytes that the writes have reported, those that the reads have put into their
-- buffers, the writer and the reader.
pub data Net (a0 b0 : Stream) : List Transmit → List ℕ → List ℕ → Stream → Stream → Type 0 where
  idle : Net a0 b0 [] [] [] a0 b0
  writes :
      {wire : List Transmit} {written got : List ℕ} {a b : Stream}
      → Net a0 b0 wire written got a b
      → (waker : ℕ) (buf : List ℕ) → a.seq + length buf < u32_mod
      → Net a0 b0 wire
          (written ++ take (reported (poll_write waker buf a).1) buf)
          got
          (poll_write waker buf a).0
          b
  moves :
      {wire : List Transmit} {written got : List ℕ} {a b a1 : Stream}
      → Net a0 b0 wire written got a b
      → (step : Step a a1) → Silent step
      → Net a0 b0 wire written got a1 b
  sends :
      {wire wire1 : List Transmit} {written got : List ℕ} {a b a1 : Stream}
      → Net a0 b0 wire written got a b
      → Sends wire a wire1 a1
      → Net a0 b0 wire1 written got a1 b
  arrives :
      {wire : List Transmit} {written got : List ℕ} {a b b1 : Stream}
      → Net a0 b0 wire written got a b
      → Arrives wire b b1
      → Net a0 b0 wire written got a b1
  acts :
      {wire : List Transmit} {written got : List ℕ} {a b b1 : Stream}
      → Net a0 b0 wire written got a b
      → (step : Step b b1) → Sealed step
      → Net a0 b0 wire written (got ++ output step) a b1
