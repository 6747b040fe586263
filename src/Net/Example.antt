-- ===== src/Net/Example.antt =====
-- Two streams and what passes between them: a write of two bytes, the datagram that carries them, and
-- the one that acknowledges them.
use async_udx.Prelude.{
  sub64, ◌+◌, ◌<◌, u32_mod, add32, add64, ℕ, ◌≡◌, refl, List, [], ◌∷◌, none, some, true, false,
  get_elem?, arith,
}
use async_udx.Constants.{udx_header_data}
use async_udx.Map.{lookup, insert, remove}
use async_udx.Packet.Types.{
  owned, has_type, Packet, new_packet, packet_len, Transmit, shared, new_flags, as_slice,
}
use async_udx.Packet.Set.{new_set, to_transmit, put_slices}
use async_udx.Socket.Events.{EventOutgoing, transmit, packet_event}
use async_udx.Socket.Routing.{arrival}
use async_udx.Packet.Header.{Header, encode, write_fields, from_bytes, read_fields}
use async_udx.Packet.Bytes.{read_u32_le}
use async_udx.Stream.Writing.Sent.{reported}
use async_udx.Socket.Defs.{Socket, StreamHandle, bind}
use async_udx.Socket.Receive.{process_packet, route, hand_over}
use async_udx.Socket.Transmit.{SendEnv, take_event, send_pending}
use async_udx.Stream.Defs.{
  Stream, connect, create_packet, create_header, wake_driver, send_state_packet, closed_and_drained,
}
use async_udx.Stream.Ack.{
  ack_loop, ack_packet, handle_remote_ack_for_packet, recalculate, grow_cwnd,
  handle_incoming_max_remote_ack, wake_writer,
}
use async_udx.Stream.Timeouts.{
  poll_check_timeouts, flush_waiting_packets, flush_loop, flush_one, flush_packet,
}
use async_udx.Stream.Transmit.{poll_transmit, batch_loop, batch_packet, send_set, last_set}
use async_udx.Stream.State.{local_closed}
use async_udx.Stream.Write.{poll_write, write_loop, send_data_packet, queue_packet}
use async_udx.Stream.Receive.{
  poll_read, handle_incoming, process_packet as take_packet, receive_end, receive_data, advance,
}
use async_udx.Stream.Drive.{
  Env, driver_poll, poll_drive, drive_incoming, drive_timeouts, drive_transmit, schedule,
  poll_incoming, incoming_loop,
}

abbrev pub writer : Stream
writer = connect 0 9 2 1

abbrev pub env : Env
env = record { now = 5; fired = false; gso = 8; waker = 4 }

abbrev pub written : Stream
written = (poll_write 6 (7 ∷ 8 ∷ []) writer).0

abbrev pub driven : Stream
driven = (driver_poll env written).0

abbrev pub packet : Packet
packet = create_packet writer udx_header_data (7 ∷ 8 ∷ [])

abbrev pub message : EventOutgoing
message = transmit (new_set 9 (shared (record { cell = 0; packet = packet }) ∷ []) 22)

abbrev pub send_env : SendEnv
send_env = record {
  now = 6;
  batch_size = 8;
  cells = λ set cell. new_flags;
  answer = λ ts. send_pending;
}

abbrev pub datagram : List ℕ
datagram =
    255 ∷ 1 ∷ 1 ∷ 0 ∷ 2 ∷ 0 ∷ 0 ∷ 0 ∷ 255 ∷ 255 ∷ 255 ∷ 255 ∷ 0 ∷ 0 ∷ 0 ∷ 0 ∷ 0 ∷ 0 ∷ 0 ∷ 0 ∷ 7 ∷ 8
    ∷ []

abbrev pub sent : Transmit
sent = record {
  destination = 9;
  ecn = none;
  contents = datagram;
  segment_size = none;
  src_ip = none;
}

abbrev pub reader : Stream
reader = connect 0 8 1 2

abbrev pub before : StreamHandle
before = record { recv_tx = []; is_open = true }

abbrev pub after : StreamHandle
after = record {
  recv_tx = packet_event (arrival packet.header (7 ∷ 8 ∷ []) 8) ∷ [];
  is_open = true;
}

abbrev pub reader_socket : Socket
reader_socket = record (bind 8) { streams = (2, before) ∷ [] }

abbrev pub received : Stream
received = record reader { recv_rx = after.recv_tx }

abbrev pub polled : Stream
polled = (driver_poll env received).0

abbrev pub drained : Stream
drained = (poll_read 5 1 polled).0

pub writer_room : writer.seq + 2 < u32_mod
unfolding connect
writer_room = omega arith

-- What the writer's first poll leaves.
pub driven_lem :
    (driven.send_tx ≡ message ∷ []) × (driven.local_id ≡ 1) × (before.recv_tx ≡ driven.recv_rx)
unfolding driver_poll poll_drive drive_incoming drive_timeouts drive_transmit schedule poll_incoming
    incoming_loop handle_incoming_max_remote_ack wake_writer poll_check_timeouts
    flush_waiting_packets flush_loop flush_one flush_packet poll_transmit batch_loop batch_packet
    send_set last_set new_set packet_len as_slice closed_and_drained poll_write write_loop
    send_data_packet queue_packet wake_driver connect create_packet create_header new_packet lookup
    insert remove add32 add64 encode write_fields
driven_lem = (refl, refl, refl)

abbrev pub wire : List Transmit
wire = (take_event send_env message (bind 8)).0.outgoing_transmits

pub wire-sent : get_elem? wire 0 ≡ some sent
unfolding bind take_event to_transmit put_slices new_set create_packet create_header new_packet
    connect encode write_fields as_slice local_closed
wire-sent = refl

pub reader_known : lookup reader.local_id reader_socket.streams ≡ some before
unfolding connect bind lookup
reader_known = refl

pub reader_empty : before.recv_tx ≡ reader.recv_rx
unfolding connect
reader_empty = refl

pub reader_after :
    lookup reader.local_id (process_packet (some 8) datagram 8 reader_socket).0.streams ≡ some after
unfolding connect bind lookup process_packet route hand_over from_bytes read_fields read_u32_le
    insert remove create_packet create_header new_packet local_closed
reader_after = refl

pub write_result : reported (poll_write 6 (7 ∷ 8 ∷ []) writer).1 ≡ 2
unfolding reported poll_write write_loop send_data_packet connect add64
write_result = refl

abbrev pub polled_sent : Stream
polled_sent = record polled { send_tx = [] }

abbrev pub ack_header : Header
ack_header = record {
  typ = 0;
  data_offset = 0;
  stream_id = 1;
  recv_win = 4294967295;
  seq = 0;
  ack = 1;
}

abbrev pub ack_message : EventOutgoing
ack_message = transmit (new_set 8 (owned (new_packet 8 ack_header []) ∷ []) 20)

abbrev pub ack_datagram : List ℕ
ack_datagram =
    255 ∷ 1 ∷ 0 ∷ 0 ∷ 1 ∷ 0 ∷ 0 ∷ 0 ∷ 255 ∷ 255 ∷ 255 ∷ 255 ∷ 0 ∷ 0 ∷ 0 ∷ 0 ∷ 1 ∷ 0 ∷ 0 ∷ 0 ∷ []

abbrev pub acked : Stream
acked = record (record driven { send_tx = [] }) {
  recv_rx = packet_event (arrival ack_header [] 9) ∷ [];
}

abbrev pub finished : Stream
finished = (driver_poll env acked).0

pub polled_message : polled.send_tx ≡ ack_message ∷ []
unfolding driver_poll poll_drive drive_incoming drive_timeouts drive_transmit schedule poll_incoming
    incoming_loop handle_incoming take_packet receive_end receive_data advance send_state_packet
    grow_cwnd has_type handle_incoming_max_remote_ack wake_writer poll_check_timeouts
    flush_waiting_packets flush_loop flush_one flush_packet poll_transmit batch_loop batch_packet
    send_set last_set new_set packet_len as_slice closed_and_drained wake_driver connect
    create_packet create_header new_packet lookup insert remove add32 add64 encode write_fields
    local_closed
polled_message = refl

abbrev pub back : List Transmit
back = (take_event send_env ack_message (bind 8)).0.outgoing_transmits

abbrev pub ack_sent : Transmit
ack_sent = record {
  destination = 8;
  ecn = none;
  contents = ack_datagram;
  segment_size = none;
  src_ip = none;
}

pub back-sent : get_elem? back 0 ≡ some ack_sent
unfolding bind take_event to_transmit put_slices new_set new_packet encode write_fields as_slice
back-sent = refl

abbrev pub ack_after : StreamHandle
ack_after = record { recv_tx = packet_event (arrival ack_header [] 9) ∷ []; is_open = true }

abbrev pub writer_socket : Socket
writer_socket = record (bind 8) { streams = (1, before) ∷ [] }

pub writer_known : lookup driven.local_id writer_socket.streams ≡ some before
unfolding bind lookup
writer_known = rw (driven_lem.1) refl

pub writer_after :
    lookup driven.local_id (process_packet (some 9) ack_datagram 9 writer_socket).0.streams
    ≡ some ack_after
unfolding bind lookup process_packet route hand_over from_bytes read_fields read_u32_le insert
    remove
writer_after = rw (driven_lem.1) refl

-- What the poll that sees the acknowledgement leaves.
pub finished_lem : (finished.outgoing ≡ []) × (finished.seq ≡ 1)
unfolding driver_poll poll_drive drive_incoming drive_timeouts drive_transmit schedule poll_incoming
    incoming_loop handle_incoming take_packet receive_end receive_data advance send_state_packet
    grow_cwnd has_type handle_incoming_max_remote_ack wake_writer poll_check_timeouts
    flush_waiting_packets flush_loop flush_one flush_packet poll_transmit batch_loop batch_packet
    send_set last_set new_set packet_len as_slice closed_and_drained wake_driver connect
    create_packet create_header new_packet lookup insert remove add32 add64 encode write_fields
    local_closed poll_write write_loop send_data_packet queue_packet ack_loop ack_packet
    handle_remote_ack_for_packet recalculate sub64
finished_lem = (refl, refl)
