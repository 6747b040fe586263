-- ===== src/Stream/Receive.antt =====
-- The receiving side of src/stream.rs: packets from the socket, and reads.
use async_udx.Prelude.{
  ℕ, zero, suc, ◌+◌, ◌-◌, List, [], ◌++◌, Option, none, some, Bool, true, false, if◌then◌else◌, ltb,
  leb, add32, add64, sub64, length, drop,
}
use async_udx.Constants.{udx_header_data, udx_header_end, udx_header_sack}
use async_udx.Error.{UdxError, Outcome, ok, err, closed_by_remote, to_io}
use async_udx.Map.{lookup, remove, insert, contains_key}
use async_udx.Packet.Bytes.{slice}
use async_udx.Packet.Types.{SocketAddr, IncomingPacket, has_type}
use async_udx.Stream.State.{close_remote}
use async_udx.Stream.Defs.{Stream, wake, send_state_packet, terminate}
use async_udx.Stream.Ack.{handle_incoming_sacks, grow_cwnd}

abbrev pub Incoming : Type 0
Incoming = List (ℕ × IncomingPacket)

-- `while self.incoming.contains_key(&self.ack) { self.ack += 1; }`, on fuel for its rounds.
unfoldable pub advance : ℕ → Incoming → ℕ → ℕ
advance zero m ack = ack
advance (suc n) m ack =
    let rest = advance n m (add32 ack 1) in if contains_key ack m then rest else ack

-- The data branch of `handle_incoming`.
unfoldable pub receive_data : IncomingPacket → Stream → Stream
receive_data packet s =
    let seq = packet.header.seq in
    let received = if leb s.ack seq then insert seq packet s.incoming else s.incoming in
    let ack = advance (suc (length received)) received s.ack in
    let next = leb seq ack in
    send_state_packet (record s {
      stats = record s.stats { rx_bytes = add64 s.stats.rx_bytes (length packet.buf) };
      incoming = received;
      ack = ack;
      read_waker = if next then none else s.read_waker;
      woken = if next then wake s.read_waker s.woken else s.woken;
    })

abbrev pub passes : Option (SocketAddr → Bool) → SocketAddr → Bool
passes none addr = true
passes (some on_firewall) addr = on_firewall addr

-- The branches of `handle_incoming` behind the firewall, one after the other.
unfoldable pub receive_end : IncomingPacket → Stream → Stream
receive_end packet s =
    if has_type packet udx_header_end
    then terminate closed_by_remote (record s { state = close_remote s.state })
    else s

unfoldable pub process_packet : ℕ → IncomingPacket → Stream → Stream
process_packet now packet s =
    let s1 = record s { stats = record s.stats { rx_packets = add64 s.stats.rx_packets 1 } } in
    let s2 = if has_type packet udx_header_sack then handle_incoming_sacks now packet s1 else s1 in
    let s3 = receive_end packet s2 in
    let s4 = if has_type packet udx_header_data then receive_data packet s3 else s3 in
    grow_cwnd packet.header.ack s4

unfoldable pub handle_incoming : ℕ → IncomingPacket → Stream → Stream
handle_incoming now packet s =
    if passes s.on_firewall packet.source then process_packet now packet s else s

-- The variables of `read_next`: the packets, the cursor, the bytes that were put, and `did_read`.
pub record Reader : Type 0 where
  pub incoming : Incoming
  pub read_cursor : ℕ
  pub filled : List ℕ
  pub did_read : Bool

-- A packet that is longer than what is left of the buffer: its front is read and it is put back.
unfoldable pub read_part : ℕ → IncomingPacket → Reader → Reader
read_part remaining packet r =
    let end = packet.read_offset + remaining in
    record r {
      filled = r.filled ++ slice packet.read_offset end packet.buf;
      incoming =
          insert packet.header.seq (record packet { read_offset = end })
            (remove r.read_cursor r.incoming);
    }

unfoldable pub read_whole : IncomingPacket → Reader → Reader
read_whole packet r = record r {
  incoming = remove r.read_cursor r.incoming;
  filled = r.filled ++ drop packet.read_offset packet.buf;
  did_read = true;
  read_cursor = add32 r.read_cursor 1;
}

-- The loop of `read_next`, on fuel for its rounds; `remaining` is what is left of the buffer.
unfoldable pub read_loop : ℕ → ℕ → Reader → Reader
read_loop zero remaining r = r
read_loop (suc n) remaining r = elim (lookup r.read_cursor r.incoming) [
  | none ↦ r
  | some packet ↦
      let len = sub64 (length packet.buf) packet.read_offset in
      elim (ltb remaining len) [
        | true ↦ read_part remaining packet r
        | false ↦ read_loop n (remaining - len) (read_whole packet r)
      ]
]

abbrev pub reader : Stream → Reader
reader s = record {
  incoming = s.incoming;
  read_cursor = s.read_cursor;
  filled = [];
  did_read = false;
}

unfoldable pub read_next : ℕ → Stream → Reader
read_next remaining s = read_loop (suc (length s.incoming)) remaining (reader s)

pub data Poll {ℓ} (A : Type ℓ) : Type ℓ where
  ready : A → Poll A
  pending : Poll A

abbrev pub answer : Option UdxError → Stream → ℕ → Stream × Poll (Outcome (Unit {0}))
answer (some e) s waker = (s, ready (err (to_io e)))
answer none s waker = (record s { read_waker = some waker }, pending)

abbrev pub read_result : Reader → Stream → ℕ → Stream × Poll (Outcome (Unit {0}))
read_result r s waker = if r.did_read then (s, ready (ok tt)) else answer s.error s waker

abbrev pub left_by : Reader → Stream → Stream
left_by r s = record s { incoming = r.incoming; read_cursor = r.read_cursor }

-- `AsyncRead::poll_read`, into a buffer with `remaining` bytes left: the stream, what was put into
-- the buffer, and the answer.
unfoldable pub poll_read : ℕ → ℕ → Stream → Stream × List ℕ × Poll (Outcome (Unit {0}))
poll_read waker remaining s =
    let r = read_next remaining s in
    let (s1, result) = read_result r (left_by r s) waker in (s1, r.filled, result)
