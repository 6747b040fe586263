-- ===== src/Stream/Arriving.antt =====
-- A rule for invariants of a stream of src/stream.rs that are about the packets that wait to be read,
-- the places up to which they are acknowledged and read, the error, the state, and the
-- channels to the socket: what the messages from the socket keep.
use async_udx.Prelude.{ℕ, Bool, suc, ◌≡◌, Option, some, true, length, All, leb, if◌then◌else◌}
use async_udx.Constants.{udx_header_data}
use async_udx.Error.{UdxError, closed_by_remote}
use async_udx.Map.{insert}
use async_udx.Packet.Types.{IncomingPacket, has_type}
use async_udx.Socket.Events.{EventIncoming, packet_event}
use async_udx.Stream.State.{StreamState, close_local, close_remote}
use async_udx.Stream.Defs.{Stream, terminate, send_state_packet}
use async_udx.Stream.Receive.{Incoming, advance, receive_data}
use async_udx.Stream.Drive.{poll_incoming, finish}
use async_udx.Stream.Transmit.{poll_transmit}
use async_udx.Stream.Invariant.Calls.{
  ack_packet_keeps, mark_packet_keeps, flush_packet_keeps, poll_transmit_keeps,
}
use async_udx.Stream.Invariant.{Invariant, OnOk, poll_incoming_keeps}

abbrev pub View : Type 1
View = Incoming → ℕ → ℕ → Option UdxError → StreamState → Bool × Bool → Type 0

-- The invariant `Q`, and what `P` says of every message that the stream has not taken yet.
abbrev pub Keeps : View → (EventIncoming → Type 0) → Stream → Type 0
Keeps Q P s =
    Q s.incoming s.ack s.read_cursor s.error s.state (s.send_open, s.recv_open) × All P s.recv_rx

-- The parts of the code that change what the invariant is about keep it: a packet with data that goes
-- into the map, and the end of the stream from either side.
pub record Rule (Q : View) (P : EventIncoming → Type 0) : Type 0 where
  pub receive :
      (m : Incoming) (ack cursor : ℕ) (e : Option UdxError) (st : StreamState) (live : Bool × Bool)
      (packet : IncomingPacket)
      → P (packet_event packet)
      → has_type packet udx_header_data ≡ true
      → Q m ack cursor e st live
      → let received = if leb ack packet.header.seq then insert packet.header.seq packet m else m in
        Q received (advance (suc (length received)) received ack) cursor e st live
  pub ended :
      (m : Incoming) (ack cursor : ℕ) (e : Option UdxError) (x : UdxError) (st : StreamState)
      (live : Bool × Bool)
      → Q m ack cursor e st live
      → Q m ack cursor (some x) (close_local st) live
  pub remote :
      (m : Incoming) (ack cursor : ℕ) (e : Option UdxError) (x : UdxError) (st : StreamState)
      (live : Bool × Bool)
      → Q m ack cursor e st live
      → Q m ack cursor (some x) (close_local (close_remote st)) live

module _ (Q : View) (P : EventIncoming → Type 0) (rule : Rule Q P) where
  abbrev R : Stream → Type 0
  R = Keeps Q P

  pub terminate-Keeps : (x : UdxError) (s : Stream) → Keeps Q P s → Keeps Q P (terminate x s)
  unfolding terminate
  terminate-Keeps x s (v, rx) =
      (rule.ended s.incoming s.ack s.read_cursor s.error x s.state (s.send_open, s.recv_open) v, rx)

  remote-R :
      (s : Stream)
      → R s
      → R (terminate closed_by_remote (record s { state = close_remote s.state }))
  unfolding terminate
  remote-R s (v, rx) = (
    rule.remote s.incoming s.ack s.read_cursor s.error closed_by_remote s.state
        (s.send_open, s.recv_open) v,
    rx,
  )

  receive_data-R :
      (packet : IncomingPacket) (s : Stream)
      → P (packet_event packet)
      → has_type packet udx_header_data ≡ true
      → R s
      → R (receive_data packet s)
  unfolding receive_data send_state_packet
  receive_data-R packet s h typed (v, rx) = (
    rule.receive s.incoming s.ack s.read_cursor s.error s.state (s.send_open, s.recv_open) packet h
        typed v,
    rx,
  )

  poll_transmit-R : (gso : ℕ) (s : Stream) → R s → OnOk R (poll_transmit gso s)
  poll_transmit-R gso s v = poll_transmit_keeps R gso s (λ sent. v)

  finish-R : (s : Stream) → R s → R (finish s)
  unfolding finish
  finish-R s v = v

  pub Keeps-Invariant : Invariant (Keeps Q P) P (λ _. Unit) Unit
  Keeps-Invariant = record {
    below = λ packet i h lt. tt;
    selected = λ packet i h typed. tt;
    awake = λ r w d woken s v. v;
    paced = λ cwnd time s h v. v;
    counted = λ n s h v. v;
    moved = λ ack s h v. v;
    drained = λ s v. (v.0, tt);
    acked = λ now i s a v. ack_packet_keeps R now i s (λ out cells inflight timings stats. v);
    received = receive_data-R;
    ended = terminate-Keeps;
    remote = remote-R;
    marked = λ i p s t e v. mark_packet_keeps R p s (λ cells inflight. v);
    flushed = λ i p s e v. flush_packet_keeps R p s (λ cells inflight queue. v);
    transmitted = poll_transmit-R;
    finished = finish-R;
  }

  pub poll_incoming-Keeps : (now : ℕ) (s : Stream) → Keeps Q P s → Keeps Q P (poll_incoming now s).0
  poll_incoming-Keeps now s v = poll_incoming_keeps R P (λ _. Unit) Unit Keeps-Invariant now s v.1 v
