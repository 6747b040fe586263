-- ===== src/Stream/Write.antt =====
-- The sending side of src/stream.rs: data packets, and writes.
use async_udx.Prelude.{
  ℕ, zero, suc, ◌+◌, List, [], ◌∷◌, ◌++◌, none, some, if◌then◌else◌, ltb, leb, ◌==◌, min, add32,
  add64, length, take, drop,
}
use async_udx.Constants.{udx_header_data, udx_max_data_size}
use async_udx.Error.{Outcome, ok, err, to_io}
use async_udx.Map.{insert}
use async_udx.Packet.Types.{
  Packet, Shared, shared, update, new_flags, packet_len, packet_seq, data_len, is_empty,
}
use async_udx.Stream.Defs.{Stream, create_packet, wake_driver}
use async_udx.Stream.Receive.{Poll, ready, pending}

-- `send_data_packet` with the packet made: what is left to do behind the window's test.
unfoldable pub queue_packet : Packet → Stream → Stream
queue_packet packet s =
    let handle : Shared = record { cell = s.next_cell; packet = packet } in
    wake_driver (record s {
      cells = update s.cells s.next_cell new_flags;
      next_cell = suc s.next_cell;
      seq = add32 s.seq 1;
      stats = record s.stats {
        inflight_bytes = add64 s.stats.inflight_bytes (data_len packet);
        tx_bytes = add64 s.stats.tx_bytes (data_len packet);
        tx_packets = add64 s.stats.tx_packets 1;
        inflight_packets = add64 s.stats.inflight_packets 1;
      };
      outgoing = insert (packet_seq packet) handle s.outgoing;
      inflight = add64 s.inflight (packet_len packet);
      send_queue = s.send_queue ++ shared handle ∷ [];
    })

unfoldable pub send_data_packet : List ℕ → Stream → Stream × ℕ
send_data_packet buf s =
    let len = min (length buf) udx_max_data_size in
    if ltb s.cwnd (add64 s.inflight len)
    then (s, 0)
    else (queue_packet (create_packet s udx_header_data (take len buf)) s, len)

-- The loop of `poll_write`, on fuel for its rounds: a round that goes on writes a byte or more, so
-- `buf.len() - written` rounds are enough, behind which the loop's first test ends it.
unfoldable pub write_loop : ℕ → ℕ → List ℕ → ℕ → Stream → Stream × Poll (Outcome ℕ)
write_loop zero waker buf written s = (s, ready (ok written))
write_loop (suc fuel) waker buf written s =
    let (s1, n) = send_data_packet (drop written buf) s in
    let rest = write_loop fuel waker buf (written + n) s1 in
    if leb (length buf) written
    then (s, ready (ok written))
    else if n == 0
    then if written == 0
      then (record s1 { write_waker = some waker }, pending)
      else (s1, ready (ok written))
    else rest

-- `AsyncWrite::poll_write`
unfoldable pub poll_write : ℕ → List ℕ → Stream → Stream × Poll (Outcome ℕ)
poll_write waker buf s = elim s.error [
  | some e ↦ (s, ready (err (to_io e)))
  | none ↦ if is_empty buf then (s, ready (ok 0)) else write_loop (length buf) waker buf 0 s
]
