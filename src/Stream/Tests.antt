-- ===== src/Stream/Tests.antt =====
-- The theorems on the streams of src/stream.rs at concrete inputs.
use async_udx.Prelude.{ℕ, ◌≡◌, ◌⊎◌, refl, List, [], ◌∷◌, ◌++◌, false, take, length, arith}
use async_udx.Map.{lookup}
use async_udx.Packet.Types.{IncomingPacket}
use async_udx.Socket.Events.{packet_event}
use async_udx.Stream.Defs.{Stream, connect}
use async_udx.Stream.Receive.{poll_read, read_next}
use async_udx.Stream.Drive.{Env, driver_poll, poll_incoming, incoming_loop}
use async_udx.Stream.Run.{read, drive, deliver}
use async_udx.Stream.Delivery.Spec.{prefix, offset, Delivers}
use async_udx.Stream.Delivery.ReadLoop.{Bounded, read_next-Delivers}
use async_udx.Stream.Delivery.Steps.{IsHonest}
use async_udx.Stream.Delivery.Whole.{
  output, Sound, Reads, start, more, Reads-Receives, connect-Receives, Reads-prefix,
}
use async_udx.Packet.Bytes.{slice}
use async_udx.Error.{ok}
use async_udx.Stream.Reading.{Unread, poll_read_answer}
use async_udx.Prelude.{sub64, drop, ◌<◌, ◌≤◌, ◌+◌, inl, true, none, some}
use async_udx.Stream.Ack.{handle_incoming_max_remote_ack}
use async_udx.Constants.{instant_limit, udx_header_end}
use async_udx.Error.{UdxError, err, to_io, close_graceful}
use async_udx.Map.{is_some}
use async_udx.Packet.Types.{Packet, owned}
use async_udx.Stream.State.{local_closed, closed}
use async_udx.Stream.Defs.{close, terminate}
use async_udx.Stream.Receive.{ready}
use async_udx.Stream.Write.{poll_write}
use async_udx.Stream.Run.{Reach, here, next, closing}
use async_udx.Prelude.{◌≢◌, ◌*◌}
use async_udx.Error.{panic}
use async_udx.Stream.Panics.{driver_poll_no_panic}
use async_udx.Stream.Closing.{reached-Agrees, Reach-failed}
use async_udx.Stream.Polls.{Woken, terminate-Woken}

-- A new stream, a packet with two bytes, and a poll of the driver.
abbrev fresh : Stream
fresh = connect 0 9 2 1

abbrev sent_bodies : ℕ → List ℕ
sent_bodies k = k ∷ 7 ∷ []

abbrev data_packet : IncomingPacket
data_packet = record {
  header = record {
    typ = 1;
    data_offset = 0;
    stream_id = 1;
    recv_win = 4294967295;
    seq = 0;
    ack = 0;
  };
  buf = 0 ∷ 7 ∷ [];
  read_offset = 0;
  source = 9;
}

abbrev env : Env
env = record { now = 5; fired = false; gso = 8; waker = 4 }

abbrev delivered : Stream
delivered = record fresh { recv_rx = fresh.recv_rx ++ packet_event data_packet ∷ [] }

abbrev driven : Stream
driven = (driver_poll env delivered).0

sent_bodies-Bounded : Bounded sent_bodies
sent_bodies-Bounded k = omega arith

data_packet-IsHonest : IsHonest sent_bodies (packet_event data_packet)
data_packet-IsHonest typed = record { body = refl; unread = refl; fits = omega arith }

driven-Reads :
    Reads sent_bodies fresh
      (([] ++ output (deliver (packet_event data_packet) fresh)) ++ output (drive env delivered))
      driven
unfolding Sound
driven-Reads =
    more (more start (deliver (packet_event data_packet) fresh) data_packet-IsHonest)
      (drive env delivered) tt

read-Reads :
    Reads sent_bodies fresh
      ((([] ++ output (deliver (packet_event data_packet) fresh)) ++ output (drive env delivered))
        ++ output (read 6 10 driven))
      (poll_read 6 10 driven).0
unfolding Sound
read-Reads = more driven-Reads (read 6 10 driven) tt

Reads-prefix_example :
    let s = (poll_read 6 10 driven).0 in
    (([] ++ output (deliver (packet_event data_packet) fresh)) ++ output (drive env delivered))
      ++ output (read 6 10 driven)
    ≡ prefix sent_bodies s.read_cursor
      ++ take (offset (lookup s.read_cursor s.incoming)) (sent_bodies s.read_cursor)
Reads-prefix_example =
    Reads-prefix sent_bodies 0 9 2 1 (poll_read 6 10 driven).0
      ((([] ++ output (deliver (packet_event data_packet) fresh)) ++ output (drive env delivered))
        ++ output (read 6 10 driven))
      sent_bodies-Bounded read-Reads

driven-Delivers : Delivers sent_bodies driven.incoming driven.ack driven.read_cursor []
unfolding output
driven-Delivers =
    (Reads-Receives sent_bodies fresh driven [] sent_bodies-Bounded
      (connect-Receives sent_bodies 0 9 2 1) driven-Reads).0

read_next-Delivers_example :
    let r = read_next 10 driven in
    Delivers sent_bodies r.incoming driven.ack r.read_cursor ([] ++ r.filled)
    × ((r.read_cursor ≡ driven.ack) ⊎ (length r.filled ≡ 10))
read_next-Delivers_example =
    read_next-Delivers sent_bodies 10 [] driven sent_bodies-Bounded driven-Delivers

-- The stream is closed, and polled once more.
abbrev ended : Stream
ended = close 3 fresh

closing-Reach : Reach fresh (driver_poll env ended).0
closing-Reach = next (next here (closing 3 fresh)) (drive env ended)

reached-Agrees_example :
    let s = (driver_poll env ended).0 in
    (local_closed s.state ≡ is_some s.error) × (closed s.state ≡ is_some s.error)
reached-Agrees_example = reached-Agrees 0 9 2 1 (driver_poll env ended).0 closing-Reach

ended_failed : is_some ended.error ≡ true
unfolding close terminate
ended_failed = refl

Reach-failed_example :
    let t = (driver_poll env ended).0 in
    (x : UdxError) × (t.error ≡ some x) × (poll_write 6 (1 ∷ []) t ≡ (t, ready (err (to_io x))))
Reach-failed_example =
    Reach-failed ended (driver_poll env ended).0 6 (1 ∷ []) ended_failed
      (next here (drive env ended))

abbrev asleep : Stream
asleep = record fresh { read_waker = some 6 }

terminate-Woken_example :
    let t = terminate close_graceful asleep in
    Woken 6 t.woken
    × (t.read_waker ≡ none)
    × (t.write_waker ≡ none)
    × (t.drive_waker ≡ none)
    × ((p : Packet) × (t.send_queue ≡ asleep.send_queue ++ owned p ∷ [])
        × (p.header.typ ≡ udx_header_end))
terminate-Woken_example = terminate-Woken close_graceful 6 asleep (inl refl)

-- A read of one byte, of a packet of two.
poll_read_answer_example :
    let r = poll_read 6 1 driven in
    ((lookup driven.read_cursor driven.incoming ≡ none) × (r.1 ≡ []) × Unread 6 driven r)
    ⊎ ((p : IncomingPacket) × (lookup driven.read_cursor driven.incoming ≡ some p)
        × (((1 < sub64 (length p.buf) p.read_offset)
              × (r.1 ≡ slice p.read_offset (p.read_offset + 1) p.buf)
              × Unread 6 driven r)
            ⊎ ((sub64 (length p.buf) p.read_offset ≤ 1)
                × (r.2 ≡ ready (ok tt))
                × ((rest : List ℕ) × (r.1 ≡ drop p.read_offset p.buf ++ rest)))))
poll_read_answer_example = poll_read_answer 6 1 driven

abbrev ended_behind : Stream
ended_behind = (poll_incoming env.now (record ended { drive_waker = none })).0

ended_soon : env.now + 2 * ended_behind.timings.rto < instant_limit
unfolding poll_incoming incoming_loop handle_incoming_max_remote_ack close terminate connect
ended_soon = omega arith

driver_poll_no_panic_example : (driver_poll env ended).1 ≢ panic
driver_poll_no_panic_example =
    driver_poll_no_panic 0 9 2 1 env ended (next here (closing 3 fresh)) (omega arith) ended_soon
