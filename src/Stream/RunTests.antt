-- ===== src/Stream/RunTests.antt =====
-- A run of a stream: a write, the time of its packet, its acknowledgement, and a poll that sees both.
use async_udx.Prelude.{◌++◌, ◌+◌, ◌<◌, ◌≡◌, refl, [], ◌∷◌, false, arith, u32_mod}
use async_udx.Socket.Events.{EventIncoming, packet_event}
use async_udx.Stream.Defs.{Stream, connect}
use async_udx.Stream.Write.{poll_write}
use async_udx.Stream.Drive.{Env, driver_poll}
use async_udx.Stream.Run.{write, drive, deliver}
use async_udx.Stream.RoundTrip.{Calm, unmoved, goes_on, InTime, first_timings, Calm-timings}

abbrev fresh : Stream
fresh = connect 0 9 2 1

abbrev written : Stream
written = (poll_write 6 (7 ∷ []) fresh).0

abbrev acknowledgement : EventIncoming
acknowledgement = packet_event (record {
  header = record { typ = 0; data_offset = 0; stream_id = 1; recv_win = 0; seq = 0; ack = 1 };
  buf = [];
  read_offset = 0;
  source = 9;
})

abbrev acked : Stream
acked = record written { recv_rx = written.recv_rx ++ acknowledgement ∷ [] }

abbrev env : Env
env = record { now = 50; fired = false; gso = 8; waker = 4 }

fresh_room : fresh.seq + 1 < u32_mod
unfolding connect
fresh_room = omega arith

acked-Calm : Calm fresh (driver_poll env acked).0
unfolding InTime
acked-Calm =
    goes_on
      (goes_on (goes_on unmoved (write 6 (7 ∷ []) fresh fresh_room) tt)
        (deliver acknowledgement written) tt)
      (drive env acked) refl

Calm-timings_example : (driver_poll env acked).0.timings ≡ first_timings
Calm-timings_example = Calm-timings 0 9 2 1 (driver_poll env acked).0 acked-Calm
