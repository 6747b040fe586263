-- ===== src/Stream/ResendTests.antt =====
-- The theorem on the retransmissions of src/stream.rs at a concrete input.
use async_udx.Prelude.{
  ℕ, ◌≡◌, refl, ◌+◌, ◌*◌, ◌≤◌, ◌<◌, List, [], ◌∷◌, none, some, true, false, length, arith, add64,
}
use async_udx.Constants.{instant_limit}
use async_udx.Map.{lookup, insert}
use async_udx.Packet.Types.{Shared, new_packet}
use async_udx.Stream.Defs.{
  Stream, connect, closed_and_drained, create_packet, create_header, wake_driver,
}
use async_udx.Stream.Ack.{handle_incoming_max_remote_ack}
use async_udx.Stream.Write.{poll_write, write_loop, send_data_packet, queue_packet}
use async_udx.Stream.Drive.{Env, poll_incoming, incoming_loop, driver_poll}
use async_udx.Stream.Run.{Reach, here, next, write}
use async_udx.Stream.Resending.{Resends, driver_poll-Resends}
use async_udx.Stream.Resending.Waiting.{Oldest}

abbrev fresh : Stream
fresh = connect 0 9 2 1

abbrev three : List ℕ
three = 1 ∷ 2 ∷ 3 ∷ []

-- Three bytes are written, and nobody has acknowledged them when the timer fires.
abbrev unanswered : Stream
unanswered = (poll_write 6 three fresh).0

abbrev late : Env
late = record { now = 2000000000; fired = true; gso = 8; waker = 4 }

abbrev behind : Stream
behind = (poll_incoming late.now (record unanswered { drive_waker = none })).0

fresh_room : fresh.seq + length three < 4294967296
unfolding connect
fresh_room = omega arith

unanswered-Reach : Reach fresh unanswered
unanswered-Reach = next here (write 6 three fresh fresh_room)

abbrev lost : Shared
lost = record { packet = create_packet fresh 1 three; cell = 0 }

lost_out : lookup 0 behind.outgoing ≡ some lost
unfolding poll_incoming incoming_loop handle_incoming_max_remote_ack poll_write write_loop
    send_data_packet queue_packet wake_driver connect add64 lookup insert create_packet
    create_header new_packet
lost_out = refl

start : behind.remote_acked ≤ 0
unfolding poll_incoming incoming_loop handle_incoming_max_remote_ack poll_write write_loop
    send_data_packet queue_packet wake_driver connect add64
start = omega arith

lost-Oldest : Oldest 0 lost behind
lost-Oldest = record { first = λ j less. absurd (omega arith); out = lost_out; open_range = start }

busy : closed_and_drained unanswered ≡ false
unfolding closed_and_drained poll_write write_loop send_data_packet queue_packet wake_driver connect
    add64
busy = refl

receives : unanswered.recv_open ≡ true
unfolding poll_write write_loop send_data_packet queue_packet wake_driver connect add64
receives = refl

sends : behind.send_open ≡ true
unfolding poll_incoming incoming_loop handle_incoming_max_remote_ack poll_write write_loop
    send_data_packet queue_packet wake_driver connect add64
sends = refl

soon : late.now + 2 * behind.timings.rto < instant_limit
unfolding poll_incoming incoming_loop handle_incoming_max_remote_ack poll_write write_loop
    send_data_packet queue_packet wake_driver connect add64
soon = omega arith

driver_poll-Resends_example : Resends lost behind (driver_poll late unanswered)
driver_poll-Resends_example =
    driver_poll-Resends 0 9 2 1 0 lost late unanswered unanswered-Reach refl (omega arith) receives
      busy sends lost-Oldest soon
