-- ===== src/Stream/Inflight/Writes.antt =====
-- The accounting over writes.
use async_udx.Prelude.{
  ℕ, suc, ◌+◌, ◌-◌, ◌≤◌, ◌<◌, ◌≡◌, refl, List, ◌⊎◌, arith, length, add32, add64, add32_lem,
  add64_lem, ltb, Option-cases, inl, inr, if-both, min, u32_mod, take, drop, length-take,
  length-drop,
}
use async_udx.Constants.{udx_header_data}
use async_udx.Map.{insert}
use async_udx.Packet.Types.{
  Packet, Cells, update, packet_len, packet_seq, data_len, new_flags, new_packet, is_empty,
}
use async_udx.Packet.Build.{packet_len-new_packet}
use async_udx.Stream.Defs.{Stream, create_packet, create_header, wake_driver}
use async_udx.Stream.Receive.{Poll}
use async_udx.Stream.Writing.Loop.{Done-fst, write_loop-Done}
use async_udx.Error.{Outcome}
use async_udx.Stream.Write.{queue_packet, send_data_packet, write_loop, poll_write}
use async_udx.Stream.Outgoing.{Outgoing, weight-fresh, remove_absent, Below-mono}
use async_udx.Stream.Inflight.Defs.{Counted, IsCounted, Counted-bounds}

-- A new packet, with the next number and the next address.
Counted-insert :
    (k : ℕ) (packet : Packet) {o : Outgoing} {cells : Cells} {c seq inflight bytes packets : ℕ}
    → Counted o cells c seq inflight bytes packets
    → k ≡ seq
    → suc seq < u32_mod
    → packet_len packet ≤ 1400
    → data_len packet ≤ 1400
    → Counted
        (insert k (record { cell = c; packet = packet }) o)
        (update cells c new_flags)
        (suc c)
        (add32 seq 1)
        (add64 inflight (packet_len packet))
        (add64 bytes (data_len packet))
        (add64 packets 1)
unfolding insert
Counted-insert k packet {o} {cells} {c} {seq} {inflight} {bytes} {packets} v e fits small small' =
    rw (remove_absent seq c k o v.sorted (omega arith)) (record {
      sorted = (
        rw (add32_lem seq 1 (omega arith)) (omega arith),
        omega arith,
        Below-mono o (omega arith) (omega arith) v.sorted,
      );
      small = (small, v.small);
      flying = ground (
        arith,
        Counted-bounds v,
        v.flying,
        weight-fresh cells seq c c new_flags o v.sorted,
        add64_lem inflight (packet_len packet),
      );
      bytes = ground (arith, Counted-bounds v, v.bytes, add64_lem bytes (data_len packet));
      packets = ground (arith, Counted-bounds v, v.packets, add64_lem packets 1);
      seq_fits = rw (add32_lem seq 1 (omega arith)) (omega arith);
    })

queue_packet-IsCounted :
    (packet : Packet) (s : Stream)
    → IsCounted s
    → packet_seq packet ≡ s.seq
    → suc s.seq < u32_mod
    → packet_len packet ≤ 1400
    → data_len packet ≤ 1400
    → IsCounted (queue_packet packet s)
unfolding queue_packet wake_driver
queue_packet-IsCounted packet s v e fits small small' =
    Counted-insert (packet_seq packet) packet v e fits small small'

pub packet_seq-create_packet :
    (s : Stream) (typ : ℕ) (body : List ℕ) → packet_seq (create_packet s typ body) ≡ s.seq
unfolding create_packet create_header new_packet
packet_seq-create_packet s typ body = refl

pub packet_len-create_packet :
    (s : Stream) (typ : ℕ) (body : List ℕ)
    → (packet_len (create_packet s typ body) ≡ 20 + length body)
      × (data_len (create_packet s typ body) ≡ length body)
unfolding create_packet
packet_len-create_packet s typ body = packet_len-new_packet s.remote_addr (create_header s typ) body

-- What one call of `send_data_packet` does: nothing, or one packet with the next number.
abbrev pub Sends : List ℕ → Stream → Stream × ℕ → Type 0
Sends buf s r =
    (r ≡ (s, 0))
    ⊎ (r ≡ (
      queue_packet (create_packet s udx_header_data (take (min (length buf) 1380) buf)) s,
      min (length buf) 1380,
    ))

pub send_data_packet-Sends : (buf : List ℕ) (s : Stream) → Sends buf s (send_data_packet buf s)
unfolding send_data_packet
send_data_packet-Sends buf s =
    if-both (Sends buf s) (ltb s.cwnd (add64 s.inflight (min (length buf) 1380))) (inl refl)
      (inr refl)

send_data_packet-IsCounted :
    (buf : List ℕ) (s : Stream)
    → IsCounted s
    → suc s.seq < u32_mod
    → IsCounted (send_data_packet buf s).0
unfolding send_data_packet
send_data_packet-IsCounted buf s v fits =
    if-both (λ (r : Stream × ℕ). IsCounted r.0) _ v
      (queue_packet-IsCounted packet s v (packet_seq-create_packet s udx_header_data body) fits
        (omega (arith, lens, short)) (omega (arith, lens, short)))
  where
    body : List ℕ
    body = take (min (length buf) 1380) buf

    packet : Packet
    packet = create_packet s udx_header_data body

    lens : (packet_len packet ≡ 20 + length body) × (data_len packet ≡ length body)
    lens = packet_len-create_packet s udx_header_data body

    short : length body ≤ 1380
    short = omega (arith, length-take (min (length buf) 1380) buf)

-- A call on a buffer that is not empty moves `seq` by no more than it sends.
pub send_data_packet_seq :
    (buf : List ℕ) (s : Stream)
    → 0 < length buf
    → suc s.seq < u32_mod
    → (send_data_packet buf s).0.seq ≤ s.seq + (send_data_packet buf s).1
unfolding send_data_packet queue_packet wake_driver
send_data_packet_seq buf s some_left fits = ground (arith, add32_lem s.seq 1)

send_data_packet-le : (buf : List ℕ) (s : Stream) → (send_data_packet buf s).1 ≤ length buf
unfolding send_data_packet
send_data_packet-le buf s = ground arith

-- The accounting holds, and there are numbers left for the bytes behind the first `w`.
abbrev Ready : List ℕ → ℕ → Stream → Type 0
Ready buf w s = IsCounted s × (s.seq + (length buf - w) < u32_mod)

write_step :
    (buf : List ℕ) (w : ℕ) (s : Stream)
    → w < length buf
    → Ready buf w s
    → Ready buf (w + (send_data_packet (drop w buf) s).1) (send_data_packet (drop w buf) s).0
write_step buf w s more (v, room) = (
  send_data_packet-IsCounted (drop w buf) s v (omega arith),
  omega (
    arith,
    length-drop w buf,
    send_data_packet-le (drop w buf) s,
    send_data_packet_seq (drop w buf) s (omega (arith, length-drop w buf)) (omega arith),
  ),
)

write_loop-IsCounted :
    (fuel waker : ℕ) (buf : List ℕ) (s : Stream)
    → IsCounted s
    → s.seq + length buf < u32_mod
    → IsCounted (write_loop fuel waker buf 0 s).0
write_loop-IsCounted fuel waker buf s v fits =
    Done-fst (Ready buf) IsCounted (write_loop fuel waker buf 0 s) (λ n t r. r.0)
      (write_loop-Done (Ready buf) waker buf (write_step buf) (λ w t r. r) fuel 0 s
        (v, omega arith))

pub poll_write-IsCounted :
    (waker : ℕ) (buf : List ℕ) (s : Stream)
    → IsCounted s
    → s.seq + length buf < u32_mod
    → IsCounted (poll_write waker buf s).0
unfolding poll_write
poll_write-IsCounted waker buf s v fits = elim (Option-cases s.error) [
  | inr (e, failed) ↦ rw (failed, poll_write) v
  | inl none_yet ↦
      rw (none_yet, poll_write)
        (if-both (λ (r : Stream × Poll (Outcome ℕ)). IsCounted r.0) (is_empty buf) v
          (write_loop-IsCounted (length buf) waker buf s v fits))
]
