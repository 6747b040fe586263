-- ===== src/Stream/Inflight/Steps.antt =====
-- The accounting over every step of a stream.
use async_udx.Prelude.{
  All-always, ◌∙◌, sym, ◌^◌, length, ℕ, ◌≤◌, ◌<◌, ◌≡◌, refl, some, false, arith, if-both, leb,
}
use async_udx.Error.{closed_by_remote, UdxError, close_graceful}
use async_udx.Map.{lookup}
use async_udx.Packet.Types.{Shared, IncomingPacket, packet_len, data_len}
use async_udx.Stream.Defs.{Stream, connect, terminate, send_state_packet, close}
use async_udx.Stream.Receive.{receive_data}
use async_udx.Stream.Drive.{drop_handle}
use async_udx.Stream.Run.{
  Step, write, read, drive, closing, dropping, deliver, take_messages, packet_sent, forget_stream,
  end_socket, Reach, here, next,
}
use async_udx.Stream.Outgoing.{total, weight, weight-keep, total-remove, length-remove, payload}
use async_udx.Stream.Inflight.Defs.{IsCounted, Counted-bounds}
use async_udx.Stream.Inflight.Acks.{ack_packet-IsCounted}
use async_udx.Stream.Invariant.{Invariant}
use async_udx.Stream.Invariant.Calls.{poll_read_keeps, poll_transmit_keeps}
use async_udx.Stream.Invariant.Driver.{driver_poll_keeps}
use async_udx.Stream.State.{close_remote}
use async_udx.Stream.Drive.{finish}
use async_udx.Stream.Inflight.Timers.{Counted-room, mark_packet-IsCounted, flush_packet-IsCounted}
use async_udx.Stream.Inflight.Writes.{poll_write-IsCounted}

terminate-IsCounted : (e : UdxError) (s : Stream) → IsCounted s → IsCounted (terminate e s)
unfolding terminate
terminate-IsCounted e s v = v

receive_data-IsCounted :
    (packet : IncomingPacket) (s : Stream) → IsCounted s → IsCounted (receive_data packet s)
unfolding receive_data send_state_packet
receive_data-IsCounted packet s v = v

remote-IsCounted :
    (s : Stream)
    → IsCounted s
    → IsCounted (terminate closed_by_remote (record s { state = close_remote s.state }))
remote-IsCounted s v =
    terminate-IsCounted closed_by_remote (record s { state = close_remote s.state }) v

finish-IsCounted : (s : Stream) → IsCounted s → IsCounted (finish s)
unfolding finish
finish-IsCounted s v = v

pub IsCounted-Invariant : Invariant IsCounted (λ _. Unit) (λ _. Unit) Unit
IsCounted-Invariant = record {
  below = λ packet i h lt. tt;
  selected = λ packet i h typed. tt;
  awake = λ r w d woken s v. v;
  paced = λ cwnd time s h v. v;
  counted = λ n s h v. v;
  moved = λ ack s h v. v;
  drained = λ s v. v;
  acked = λ now i s a v. ack_packet-IsCounted now i s v;
  received = λ packet s h typed v. receive_data-IsCounted packet s v;
  ended = terminate-IsCounted;
  remote = remote-IsCounted;
  marked = λ i p s t e v. mark_packet-IsCounted i p s v e;
  flushed = λ i p s e v. flush_packet-IsCounted i p s v e;
  transmitted = λ gso s v. poll_transmit_keeps IsCounted gso s (λ sent. v);
  finished = finish-IsCounted;
}

Step-IsCounted : {s t : Stream} → Step s t → IsCounted s → IsCounted t
unfolding close drop_handle
Step-IsCounted (write waker buf s fits) v = poll_write-IsCounted waker buf s v fits
Step-IsCounted (read waker remaining s) v = poll_read_keeps IsCounted waker remaining s (λ w. v)
Step-IsCounted (drive env s) v =
    driver_poll_keeps IsCounted (λ _. Unit) (λ _. Unit) Unit IsCounted-Invariant env s (λ _. tt)
      (All-always (λ _. tt) s.recv_rx) v
Step-IsCounted (closing tx s) v = terminate-IsCounted close_graceful s v
Step-IsCounted (dropping n s) v =
    if-both IsCounted (leb n 2) (terminate-IsCounted close_graceful s v) v
Step-IsCounted (deliver event s) v = v
Step-IsCounted (take_messages left s) v = v
Step-IsCounted (packet_sent cell time s) v = record {
  sorted = v.sorted;
  small = v.small;
  flying = v.flying ∙ sym (weight-keep s.cells cell _ s.outgoing refl);
  bytes = v.bytes;
  packets = v.packets;
  seq_fits = v.seq_fits;
}
Step-IsCounted (forget_stream s) v = v
Step-IsCounted (end_socket s) v = v

pub connect-IsCounted :
    (now dest remote_id local_id : ℕ) → IsCounted (connect now dest remote_id local_id)
unfolding connect
connect-IsCounted now dest remote_id local_id = record {
  sorted = tt;
  small = tt;
  flying = refl;
  bytes = refl;
  packets = refl;
  seq_fits = omega arith;
}

pub Reach-IsCounted : {s t : Stream} → IsCounted s → Reach s t → IsCounted t
Reach-IsCounted v here = v
Reach-IsCounted v (next r st) = Step-IsCounted st (Reach-IsCounted v r)

-- In every state that a new stream reaches while its sequence numbers do not wrap around, `inflight`
-- is the sum of the sizes of the packets in `outgoing` that are not waiting, `inflight_bytes` the sum
-- of the data of all of them, and `inflight_packets` their number.
pub reached-IsCounted :
    (now dest remote_id local_id : ℕ) (s : Stream)
    → Reach (connect now dest remote_id local_id) s
    → (s.inflight ≡ total (weight s.cells) s.outgoing)
      × (s.stats.inflight_bytes ≡ total payload s.outgoing)
      × (s.stats.inflight_packets ≡ length s.outgoing)
reached-IsCounted now dest remote_id local_id s r =
    let v = Reach-IsCounted (connect-IsCounted now dest remote_id local_id) r in
    (v.flying, v.bytes, v.packets)

-- In every state that a new stream reaches while its sequence numbers do not wrap around, no counter
-- falls below zero when a packet of `outgoing` is acknowledged or taken for lost, and `inflight` and
-- `inflight_bytes` are below 2 ^ 43.
pub reached_no_wrap :
    (now dest remote_id local_id k : ℕ) (p : Shared) (s : Stream)
    → Reach (connect now dest remote_id local_id) s
    → lookup k s.outgoing ≡ some p
    → ((s.cells p.cell).waiting ≡ false → packet_len p.packet ≤ s.inflight)
      × (data_len p.packet ≤ s.stats.inflight_bytes)
      × (1 ≤ s.stats.inflight_packets)
      × (s.inflight < 2 ^ 43)
      × (s.stats.inflight_bytes < 2 ^ 43)
reached_no_wrap now dest remote_id local_id k p s r e = (
  λ live. ground (arith, live, Counted-room k p v e),
  omega (arith, v.bytes, total-remove payload s.seq s.next_cell k s.outgoing {p = p} v.sorted e),
  omega (arith, v.packets, length-remove s.seq s.next_cell k s.outgoing {p = p} v.sorted e),
  omega (arith, Counted-bounds v, v.seq_fits),
  omega (arith, Counted-bounds v, v.seq_fits),
)
  where
    v : IsCounted s
    v = Reach-IsCounted (connect-IsCounted now dest remote_id local_id) r
