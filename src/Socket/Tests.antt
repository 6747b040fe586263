-- ===== src/Socket/Tests.antt =====
-- The theorems on the sockets of src/socket.rs at concrete inputs.
use async_udx.Prelude.{
  ℕ, ◌≤◌, ◌<◌, ◌/◌, ◌≡◌, ◌≢◌, ◌⊎◌, refl, List, [], ◌∷◌, ◌++◌, none, some, true, false, length, drop,
  arith,
}
use async_udx.Error.{ok, err, panic}
use async_udx.Map.{lookup, insert}
use async_udx.Packet.Header.{Header, bad_header, from_bytes}
use async_udx.Packet.Codec.{Fits}
use async_udx.Packet.Types.{as_slice, new_packet, new_flags}
use async_udx.Socket.Events.{packet_event}
use async_udx.Socket.Defs.{Socket, StreamHandle, bind, connect, send}
use async_udx.Socket.Receive.{process_packet}
use async_udx.Socket.Transmit.{SendEnv, sent}
use async_udx.Socket.Run.{connecting, sending, polling, Reach, here, next}
use async_udx.Socket.Datagrams.{InSlices, kept, given_back, receive_all-kept}
use async_udx.Socket.Receive.{receive_all}
use async_udx.Socket.Routing.{arrival, process_packet-new_packet, process_packet_verdict}
use async_udx.Socket.Queues.{reached-Bounds}
use async_udx.Prelude.{◌*◌, take}
use async_udx.Packet.Types.{PacketRef, owned, Cells, Transmit}
use async_udx.Packet.Set.{PacketSet, to_transmit}
use async_udx.Packet.Build.{packet_len-new_packet}
use async_udx.Packet.Segments.{Kept, Equal}
use async_udx.Socket.Slices.{
  Slice, initialised, undefined, refused, chunks_mut, write_slots, assume_init, iovectors_from_buf,
}
use async_udx.Socket.Cutting.{evenly, iovectors_from_buf_lem}
use async_udx.Socket.Buffer.{Keeping, AllKeeping, reached-Buffer}
use async_udx.Socket.Buffer.Receiving.{Held}
use async_udx.Socket.Receive.{RecvDgram, RecvAnswer, received, poll_recv}
use async_udx.Socket.Driver.{poll}
use async_udx.Socket.Wire.{Handed, to_transmit-process_packet}

-- A socket with the stream 7, and two datagrams to send.
abbrev connected : Socket
connected = (connect 0 9 7 8 (bind 32)).0

abbrev busy : Socket
busy = send 9 (5 ∷ []) (send 9 (6 ∷ []) connected)

abbrev header : Header
header = record { typ = 1; data_offset = 0; stream_id = 7; recv_win = 0; seq = 0; ack = 0 }

header-Fits : Fits header
header-Fits = omega arith

abbrev new_handle : StreamHandle
new_handle = record { recv_tx = []; is_open = true }

stream_there : lookup header.stream_id connected.streams ≡ some new_handle
unfolding connect bind lookup insert
stream_there = refl

process_packet-new_packet_example :
    let r = process_packet (some 8) (as_slice (new_packet 3 header (1 ∷ 2 ∷ [])).buf) 9 connected in
    (r.1 ≡ ok none)
    × (lookup 7 r.0.streams
        ≡ some (record {
          recv_tx = [] ++ packet_event (arrival header (1 ∷ 2 ∷ []) 9) ∷ [];
          is_open = true;
        }))
    × ((k : ℕ) → k ≢ 7 → lookup k r.0.streams ≡ lookup k connected.streams)
process_packet-new_packet_example =
    process_packet-new_packet 3 9 8 header (1 ∷ 2 ∷ []) new_handle connected header-Fits
      stream_there refl

abbrev junk : List ℕ
junk = 1 ∷ 2 ∷ []

process_packet_verdict_example :
    let r = process_packet (some 8) junk 9 connected in
    ((r.1 ≡ ok (some junk))
      × (r.0.streams ≡ connected.streams)
      × ((from_bytes junk ≡ err bad_header)
          ⊎ ((h : Header) × (from_bytes junk ≡ ok h)
              × (lookup h.stream_id connected.streams ≡ none))))
    ⊎ ((r.1 ≡ ok none)
        × ((h : Header) × (handle : StreamHandle) × (from_bytes junk ≡ ok h)
            × (lookup h.stream_id connected.streams ≡ some handle)))
process_packet_verdict_example = process_packet_verdict junk 9 8 connected

abbrev busy-Reach : Reach 32 (bind 32) busy
busy-Reach =
    next (next (next here (connecting 0 9 7 8 (bind 32))) (sending 9 (6 ∷ []) connected))
      (sending 9 (5 ∷ []) (send 9 (6 ∷ []) connected))

reached-Bounds_example :
    (length busy.recv_dgrams ≤ 1024)
    × (length busy.outgoing_transmits ≤ 32)
    × (length busy.outgoing_packet_sets ≤ length busy.outgoing_transmits)
reached-Bounds_example = reached-Bounds 32 busy busy-Reach

-- A system that takes one transmit at a time.
abbrev env : SendEnv
env = record { now = 5; batch_size = 32; cells = λ set c. new_flags; answer = λ ts. sent 1 }

-- A system that reads one datagram in each call.
abbrev one_each : ℕ → RecvAnswer
one_each i = received (record { addr = 9; bytes = junk; local_addr = some 8 } ∷ [])

one_each-Held : (i : ℕ) → Held (evenly 32 1400 0) (one_each i)
unfolding evenly
one_each-Held i = (omega arith, (8, refl), tt)

abbrev polled-Reach : Reach 32 (bind 32) (poll 4 env false one_each busy).0
polled-Reach = next busy-Reach (polling 4 env false one_each busy refl)

polled-AllKeeping : AllKeeping (evenly 32 1400 0) polled-Reach
unfolding AllKeeping Keeping
polled-AllKeeping = ((((tt, tt), tt), tt), one_each-Held)

reached-Buffer_example :
    ((poll 4 env false one_each busy).0.recv_buf ≡ some (1400 * 32))
    × (iovectors_from_buf 32 (1400 * 32) ≡ initialised (evenly 32 1400 0))
    × ((poll_recv 32 one_each (poll 4 env false one_each busy).0).1 ≢ panic)
reached-Buffer_example =
    reached-Buffer 32 (poll 4 env false one_each busy).0 one_each (omega arith) polled-Reach
      polled-AllKeeping one_each-Held

abbrev slots : ℕ
slots = 3

abbrev bytes : ℕ
bytes = 7

-- Three slots do not divide a buffer of seven bytes.
iovectors_from_buf_lem_example :
    (((slots ≡ 0) ⊎ (bytes < slots)) × (iovectors_from_buf slots bytes ≡ refused))
    ⊎ ((1 ≤ slots)
        × (slots ≤ bytes)
        × (slots * (bytes / slots) ≡ bytes)
        × (iovectors_from_buf slots bytes ≡ initialised (evenly slots (bytes / slots) 0)))
    ⊎ ((1 ≤ slots)
        × (slots ≤ bytes)
        × (slots * (bytes / slots) < bytes)
        × (iovectors_from_buf slots bytes ≡ undefined))
iovectors_from_buf_lem_example = iovectors_from_buf_lem slots bytes

seven_bytes : iovectors_from_buf 3 7 ≡ undefined
unfolding iovectors_from_buf chunks_mut write_slots assume_init
seven_bytes = refl

nine_bytes :
    iovectors_from_buf 3 9
    ≡ initialised (
        record { start = 0; len = 3 }
        ∷ record { start = 3; len = 3 }
        ∷ record { start = 6; len = 3 }
        ∷ [])
unfolding iovectors_from_buf chunks_mut write_slots assume_init
nine_bytes = refl

-- Two packets of 22 bytes in one set.
abbrev packets : List PacketRef
packets = owned (new_packet 3 header (1 ∷ 2 ∷ [])) ∷ owned (new_packet 3 header (3 ∷ 4 ∷ [])) ∷ []

abbrev set : PacketSet
set = record { dest = 3; segment_size = some 22; packets = packets }

abbrev fresh_cells : Cells
fresh_cells c = new_flags

packets-Kept : Kept fresh_cells packets
packets-Kept = (refl, (refl, tt))

packets-Equal : Equal 22 packets
packets-Equal = (
  (packet_len-new_packet 3 header (1 ∷ 2 ∷ [])).0,
  ((packet_len-new_packet 3 header (3 ∷ 4 ∷ [])).0, tt),
)

to_transmit-process_packet_example :
    (t : Transmit) × (to_transmit fresh_cells set ≡ ok t)
    × Handed header
        (3 ∷ 4 ∷ [])
        9
        new_handle
        connected
        (process_packet (some 8) (take 22 (drop (1 * 22) t.contents)) 9 connected)
to_transmit-process_packet_example =
    to_transmit-process_packet fresh_cells set 22 1 (owned (new_packet 3 header (3 ∷ 4 ∷ []))) 3 9 8
      header (3 ∷ 4 ∷ []) new_handle connected refl (omega arith) packets-Kept packets-Equal refl
      refl header-Fits stream_there refl

abbrev two_slices : List Slice
two_slices = record { start = 0; len = 3 } ∷ record { start = 3; len = 3 } ∷ []

abbrev unwanted : List RecvDgram
unwanted =
    record { addr = 9; bytes = junk; local_addr = some 8 }
    ∷ record { addr = 5; bytes = []; local_addr = some 8 }
    ∷ []

unwanted-InSlices : InSlices two_slices unwanted
unwanted-InSlices = (omega arith, (8, refl), (omega arith, (8, refl), tt))

receive_all-kept_example :
    ((receive_all two_slices unwanted connected).1 ≡ ok tt)
    × ((receive_all two_slices unwanted connected).0.recv_dgrams
        ≡ kept connected.recv_dgrams (given_back two_slices unwanted connected))
receive_all-kept_example = receive_all-kept two_slices unwanted connected unwanted-InSlices
