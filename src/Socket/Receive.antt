-- ===== src/Socket/Receive.antt =====
-- Datagrams from the system: src/socket.rs routes each to its stream, or to the socket's own queue.
use async_udx.Prelude.{
  ℕ, zero, suc, ◌+◌, ◌-◌, List, [], ◌∷◌, ◌++◌, Option, none, some, Bool, true, false, if◌then◌else◌,
  ltb, add64, length, drop,
}
use async_udx.Constants.{udx_header_size, max_loop, recv_queue_max_len}
use async_udx.Error.{IoError, Outcome, ok, err, panic}
use async_udx.Map.{lookup, insert, remove}
use async_udx.Packet.Header.{Header, from_bytes}
use async_udx.Packet.Types.{SocketAddr, IncomingPacket}
use async_udx.Socket.Events.{packet_event}
use async_udx.Socket.Defs.{Socket, StreamHandle}
use async_udx.Socket.Slices.{Slice, IoSlices, initialised, undefined, refused, iovectors_from_buf}
use async_udx.Stream.Defs.{wake}

-- The step behind a call that may fail or panic.
abbrev pub go_on :
    {A B : Type 0} → Socket × Outcome A → (A → Socket → Socket × Outcome B) → Socket × Outcome B
go_on (s, ok a) f = f a s
go_on (s, err e) f = (s, err e)
go_on (s, panic) f = (s, panic)

-- The send through a stream's handle, which drops the handle of a stream that is gone.
unfoldable pub hand_over : ℕ → IncomingPacket → StreamHandle → Socket → Socket
hand_over stream_id packet handle s =
    if handle.is_open
    then record s {
      streams =
          insert stream_id (record handle { recv_tx = handle.recv_tx ++ packet_event packet ∷ [] })
            s.streams;
    }
    else record s { streams = remove stream_id s.streams }

-- The match on the decoded header. An answer of `some` gives the data back.
unfoldable pub route :
    List ℕ → SocketAddr → Outcome Header → Socket → Socket × Outcome (Option (List ℕ))
route bytes addr (err e) s = (s, ok (some bytes))
route bytes addr panic s = (s, panic)
route bytes addr (ok header) s = elim (lookup header.stream_id s.streams) [
  | none ↦ (s, ok (some bytes))
  | some handle ↦
      let packet : IncomingPacket = record {
        header = header;
        buf = drop udx_header_size bytes;
        read_offset = 0;
        source = addr;
      } in
      (hand_over header.stream_id packet handle s, ok none)
]

-- The first argument is what `local_addr()` of the system's socket answers, which is unwrapped first.
unfoldable pub process_packet :
    Option SocketAddr → List ℕ → SocketAddr → Socket → Socket × Outcome (Option (List ℕ))
process_packet none bytes addr s = (s, panic)
process_packet (some local) bytes addr s = route bytes addr (from_bytes bytes) (record s {
  stats = record s.stats {
    rx_bytes = add64 s.stats.rx_bytes (length bytes);
    rx_dgrams = add64 s.stats.rx_dgrams 1;
  };
})

unfoldable pub on_recv_dgram : List ℕ → SocketAddr → Socket → Socket
on_recv_dgram bytes addr s =
    if ltb (length s.recv_dgrams) recv_queue_max_len
    then record s {
      recv_dgrams = s.recv_dgrams ++ record { buf = bytes; dest = addr } ∷ [];
      recv_waker = none;
      woken = wake s.recv_waker s.woken;
    }
    else s

abbrev pub keep : SocketAddr → Option (List ℕ) → Socket → Socket × Outcome (Unit {0})
keep addr none s = (s, ok tt)
keep addr (some bytes) s = (on_recv_dgram bytes addr s, ok tt)

-- What the system says of one datagram: its sender, its bytes, of which `meta.len` counts all, and what
-- `local_addr()` answers when it is processed.
pub record RecvDgram : Type 0 where
  pub addr : SocketAddr
  pub bytes : List ℕ
  pub local_addr : Option SocketAddr

-- `for (meta, buf) in metas.iter().zip(iovs.iter()).take(msgs)`: the datagrams that one call has read,
-- each in a slice of its own. `buf[0..meta.len]` panics where a datagram is longer than its slice.
unfoldable pub receive_all : List Slice → List RecvDgram → Socket → Socket × Outcome (Unit {0})
receive_all [] dgrams s = (s, ok tt)
receive_all (iov ∷ iovs) [] s = (s, ok tt)
receive_all (iov ∷ iovs) (d ∷ dgrams) s =
    let processed = go_on (process_packet d.local_addr d.bytes d.addr s) (keep d.addr) in
    let rest = go_on processed (λ _. receive_all iovs dgrams) in
    if ltb iov.len (length d.bytes) then (s, panic) else rest

-- What one call of `UdpSocket::poll_recv` answers.
pub data RecvAnswer : Type 0 where
  received : List RecvDgram → RecvAnswer
  recv_pending : RecvAnswer
  recv_failed : IoError → RecvAnswer

-- The loop of `poll_recv` with the rounds that `MAX_LOOP` leaves; `answers` holds what the calls of
-- this poll answer, one after the other.
unfoldable pub recv_loop : List Slice → ℕ → (ℕ → RecvAnswer) → ℕ → Socket → Socket × Outcome Bool
recv_loop iovs zero answers i s = (s, ok true)
recv_loop iovs (suc n) answers i s = elim (answers i) [
  | received dgrams ↦ go_on (receive_all iovs dgrams s) (λ _. recv_loop iovs n answers (i + 1))
  | recv_pending ↦ (s, ok false)
  | recv_failed e ↦ (s, err e)
]

-- `self.recv_buf = Some(recv_buf)`, which a panic does not come to.
abbrev pub put_back : ℕ → Socket × Outcome Bool → Socket × Outcome Bool
put_back len (s, panic) = (s, panic)
put_back len (s, o) = (record s { recv_buf = some len }, o)

-- The rest of `poll_recv`, with what `iovectors_from_buf` has made of the buffer. Undefined behaviour
-- counts as a panic here. The slices are written by the system only: `answers` holds what it wrote.
unfoldable pub recv_into : (ℕ → RecvAnswer) → ℕ → IoSlices → Socket → Socket × Outcome Bool
recv_into answers len (initialised iovs) s =
    put_back len (recv_loop iovs (max_loop - 1) answers 0 s)
recv_into answers len undefined s = (s, panic)
recv_into answers len refused s = (s, panic)

-- `self.recv_buf.take().unwrap()`, and the rest.
unfoldable pub recv_taken : ℕ → (ℕ → RecvAnswer) → Option ℕ → Socket → Socket × Outcome Bool
unfolding recv_into
recv_taken batch_size answers none s = (s, panic)
recv_taken batch_size answers (some len) s =
    recv_into answers len (iovectors_from_buf batch_size len) s

unfoldable pub poll_recv : ℕ → (ℕ → RecvAnswer) → Socket → Socket × Outcome Bool
unfolding recv_taken
poll_recv batch_size answers s =
    recv_taken batch_size answers s.recv_buf (record s { recv_buf = none })
