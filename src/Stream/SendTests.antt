-- ===== src/Stream/SendTests.antt =====
-- The theorems on the sending side of src/stream.rs at concrete inputs.
use async_udx.Prelude.{
  ℕ, suc, ◌+◌, ◌*◌, ◌/◌, ◌-◌, ◌≤◌, ◌<◌, ◌≡◌, ◌⊎◌, ◌^◌, refl, List, [], ◌∷◌, ◌++◌, none, some, true,
  false, length, arith, min, max, if◌then◌else◌, ◌||◌, All, add32, add64,
}
use async_udx.Socket.Events.{stream_dropped}
use async_udx.Constants.{instant_limit, max_segments, udx_mtu}
use async_udx.Error.{Outcome, ok, err}
use async_udx.Map.{lookup, insert, remove}
use async_udx.Packet.Types.{Shared, new_packet, IncomingPacket, packet_len, data_len, PacketRef}
use async_udx.Packet.Set.{PacketSet}
use async_udx.Stream.State.{
  local_only, remote_only, local_closed, remote_closed, close_local, close_remote, closed,
}
use async_udx.Stream.Defs.{Stream, connect, create_packet, create_header, wake_driver, wake}
use async_udx.Stream.Ack.{sack_ranges, handle_incoming_max_remote_ack}
use async_udx.Stream.Receive.{ready, pending, Incoming, advance}
use async_udx.Stream.Write.{poll_write, write_loop, send_data_packet, queue_packet}
use async_udx.Stream.Timeouts.{poll_check_timeouts, flush_waiting_packets, max_retransmits}
use async_udx.Stream.Transmit.{poll_transmit, transmits}
use async_udx.Stream.Drive.{Env, driver_poll}
use async_udx.Stream.Run.{write, Reach, here, next}
use async_udx.Stream.Outgoing.{total, weight, payload}
use async_udx.Stream.Inflight.Steps.{reached-IsCounted, reached_no_wrap}
use async_udx.Stream.Writing.Sent.{Sent, reported, poll_write-Sent}
use async_udx.Stream.Batches.{flat, Even, poll_transmit_sets}
use async_udx.Stream.Sides.{state_flags}
use async_udx.Stream.Sacks.{sack_ranges_number}
use async_udx.Stream.Polls.{Awake, Over, driver_poll_answer}
use async_udx.Stream.Acked.{Gone, handle_incoming_max_remote_ack-Gone}
use async_udx.Stream.Lost.{WaitsAt, Spent, poll_check_timeouts_waits, flush_waiting_packets_window}
use async_udx.Stream.Delivery.Advance.{NoWrap, Advances, advance-Advances}

-- A new stream, and a write of three bytes on it.
abbrev fresh : Stream
fresh = connect 0 9 2 1

abbrev three : List ℕ
three = 1 ∷ 2 ∷ 3 ∷ []

abbrev written : Stream
written = (poll_write 6 three fresh).0

fresh_room : fresh.seq + length three < 4294967296
unfolding connect
fresh_room = omega arith

fresh_sound : fresh.error ≡ none
unfolding connect
fresh_sound = refl

written-Reach : Reach fresh written
written-Reach = next here (write 6 three fresh fresh_room)

reached-IsCounted_example :
    (written.inflight ≡ total (weight written.cells) written.outgoing)
    × (written.stats.inflight_bytes ≡ total payload written.outgoing)
    × (written.stats.inflight_packets ≡ length written.outgoing)
reached-IsCounted_example = reached-IsCounted 0 9 2 1 written written-Reach

abbrev handle : Shared
handle = record { cell = 0; packet = create_packet fresh 1 three }

written_out : lookup 0 written.outgoing ≡ some handle
unfolding poll_write write_loop send_data_packet queue_packet wake_driver connect create_packet
    lookup insert remove add32 add64 create_header new_packet
written_out = refl

written_seq : written.seq ≡ 1
unfolding poll_write write_loop send_data_packet queue_packet wake_driver connect create_packet
    add32 add64
written_seq = refl

reached_no_wrap_example :
    ((written.cells handle.cell).waiting ≡ false → packet_len handle.packet ≤ written.inflight)
    × (data_len handle.packet ≤ written.stats.inflight_bytes)
    × (1 ≤ written.stats.inflight_packets)
    × (written.inflight < 2 ^ 43)
    × (written.stats.inflight_bytes < 2 ^ 43)
reached_no_wrap_example = reached_no_wrap 0 9 2 1 0 handle written written-Reach written_out

poll_write-Sent_example :
    let r = poll_write 6 three fresh in
    ((r.1 ≡ pending) ⊎ (r.1 ≡ ready (ok (reported r.1)))) × Sent three fresh (reported r.1) r.0
poll_write-Sent_example = poll_write-Sent 6 three fresh fresh_room fresh_sound

written_live : written.send_open ≡ true
unfolding poll_write write_loop send_data_packet queue_packet wake_driver connect add64
written_live = refl

poll_transmit_sets_example :
    (t : Stream) × (sets : List PacketSet) × (poll_transmit 8 written ≡ ok t)
    × (t.send_queue ≡ [])
    × (t.send_tx ≡ written.send_tx ++ transmits sets)
    × (flat sets ≡ written.send_queue)
    × All (Even (min 8 max_segments) written.remote_addr) sets
poll_transmit_sets_example = poll_transmit_sets 8 written (omega arith) written_live

handle_incoming_max_remote_ack-Gone_example :
    let t = (handle_incoming_max_remote_ack 7 1 written).0 in
    (t.remote_acked ≡ max written.remote_acked 1)
    × Gone written.remote_acked 1 written.outgoing t.outgoing
handle_incoming_max_remote_ack-Gone_example =
    handle_incoming_max_remote_ack-Gone 7 1 written (omega arith)

written_ahead : written.remote_acked < written.seq
unfolding poll_write write_loop send_data_packet queue_packet wake_driver connect create_packet
    add32 add64
written_ahead = omega arith

written_soon : 2000 + 2 * written.timings.rto < instant_limit
unfolding poll_write write_loop send_data_packet queue_packet wake_driver connect create_packet
    add32 add64
written_soon = omega arith

poll_check_timeouts_waits_example :
    let r = poll_check_timeouts true 2000 written in
    (r.0.outgoing ≡ written.outgoing)
    × (r.0.cwnd ≡ max udx_mtu (written.cwnd / 2))
    × (r.0.rto_timeout ≡ 2000 + 2 * written.timings.rto)
    × (((r.1 ≡ ok tt) × ((k : ℕ) → written.remote_acked ≤ k → k < written.seq → WaitsAt r.0 k))
        ⊎ ((r.1 ≡ err max_retransmits)
            × ((k : ℕ) × (written.remote_acked ≤ k) × (k < written.seq) × Spent r.0 k)))
poll_check_timeouts_waits_example =
    poll_check_timeouts_waits 2000 written written_ahead written_soon

abbrev timed_out : Stream
timed_out = (poll_check_timeouts true 2000 written).0

flush_waiting_packets_window_example :
    let t = flush_waiting_packets timed_out in
    (t.inflight ≤ max timed_out.inflight timed_out.cwnd)
    × (t.cwnd ≡ timed_out.cwnd)
    × (t.outgoing ≡ timed_out.outgoing)
    × ((again : List PacketRef) × (t.send_queue ≡ timed_out.send_queue ++ again))
flush_waiting_packets_window_example = flush_waiting_packets_window timed_out

abbrev env : Env
env = record { now = 5; fired = false; gso = 8; waker = 4 }

driver_poll_answer_example :
    let r = driver_poll env written in
    (Over written
      × (r.1 ≡ ok (ready tt))
      × (r.0 ≡ record written {
        drive_waker = none;
        send_tx =
            if written.send_open
            then written.send_tx ++ stream_dropped written.local_id ∷ []
            else written.send_tx;
        signalled = wake written.on_close written.signalled;
        on_close = none;
      }))
    ⊎ ((¬ Over written) × (((r.1 ≡ ok pending) × Awake env.waker r.0) ⊎ (r.1 ≡ Outcome.panic)))
driver_poll_answer_example = driver_poll_answer env written

abbrev one_range : List ℕ
one_range = 1 ∷ 0 ∷ 0 ∷ 0 ∷ 3 ∷ 0 ∷ 0 ∷ 0 ∷ []

sack_ranges_number_example :
    (length (sack_ranges (length one_range + 0) 0 one_range) ≡ (length one_range - 1) / 8)
    × (length one_range ≡ 8 * 1 → length (sack_ranges (length one_range + 0) 0 one_range) ≡ 1 - 1)
sack_ranges_number_example = sack_ranges_number one_range 1 0

state_flags_example :
    ((local_closed local_only ≡ local_closed remote_only)
      → (remote_closed local_only ≡ remote_closed remote_only)
      → local_only ≡ remote_only)
    × (local_closed (close_local local_only) ≡ true)
    × (remote_closed (close_local local_only) ≡ remote_closed local_only)
    × (remote_closed (close_remote local_only) ≡ true)
    × (local_closed (close_remote local_only) ≡ local_closed local_only)
    × (close_local (close_remote local_only) ≡ close_remote (close_local local_only))
    × (closed local_only ≡ (local_closed local_only || remote_closed local_only))
state_flags_example = state_flags local_only remote_only

abbrev long_packet : IncomingPacket
long_packet = record {
  header = record { typ = 1; data_offset = 0; stream_id = 1; recv_win = 0; seq = 0; ack = 0 };
  buf = three;
  read_offset = 0;
  source = 9;
}

abbrev one_packet : Incoming
one_packet = (0, long_packet) ∷ []

one_packet-NoWrap : NoWrap one_packet
unfolding lookup
one_packet-NoWrap k there = ground arith

advance-Advances_example : Advances one_packet 0 (advance (suc (length one_packet)) one_packet 0)
advance-Advances_example = advance-Advances one_packet 0 one_packet-NoWrap
