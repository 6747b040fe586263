-- ===== src/Stream/Inflight/Acks.antt =====
-- The accounting when packets are acknowledged.
use async_udx.Prelude.{
  ℕ, ◌≡◌, refl, some, arith, sub64, sub64_lem, if◌then◌else◌, true, Option-cases, inl, inr,
}
use async_udx.Map.{lookup, remove}
use async_udx.Packet.Types.{Shared, Flags, Cells, update, packet_len, data_len}
use async_udx.Stream.Defs.{Stream}
use async_udx.Stream.Ack.{handle_remote_ack_for_packet, ack_packet}
use async_udx.Stream.Outgoing.{
  Outgoing, weight, payload, remove-Below, remove-Small, remove_of_none, total-remove,
  length-remove, weight-keep,
}
use async_udx.Stream.Inflight.Defs.{Counted, IsCounted, Counted-bounds}

-- A packet leaves `outgoing`, and its share leaves the counters.
Counted-remove :
    (k : ℕ) (f : Flags) (p : Shared) {o : Outgoing} {cells : Cells}
    {c seq inflight bytes packets : ℕ}
    → Counted o cells c seq inflight bytes packets
    → lookup k o ≡ some p
    → f.waiting ≡ (cells p.cell).waiting
    → Counted
        (remove k o)
        (update cells p.cell f)
        c
        seq
        (if (cells p.cell).waiting then inflight else sub64 inflight (packet_len p.packet))
        (sub64 bytes (data_len p.packet))
        (sub64 packets 1)
Counted-remove k f p {o} {cells} {c} {seq} {inflight} {bytes} {packets} v e same = record {
  sorted = remove-Below seq c k o v.sorted;
  small = remove-Small k o v.small;
  flying = ground (
    arith,
    Counted-bounds v,
    v.flying,
    v.seq_fits,
    total-remove (weight cells) seq c k o {p = p} v.sorted e,
    weight-keep cells p.cell f (remove k o) same,
    sub64_lem inflight (packet_len p.packet),
  );
  bytes = ground (
    arith,
    Counted-bounds v,
    v.bytes,
    v.seq_fits,
    total-remove payload seq c k o {p = p} v.sorted e,
    sub64_lem bytes (data_len p.packet),
  );
  packets = ground (
    arith,
    Counted-bounds v,
    v.packets,
    v.seq_fits,
    length-remove seq c k o {p = p} v.sorted e,
    sub64_lem packets 1,
  );
  seq_fits = v.seq_fits;
}

handle-IsCounted :
    (now k : ℕ) (p : Shared) (s : Stream)
    → IsCounted s
    → lookup k s.outgoing ≡ some p
    → IsCounted (handle_remote_ack_for_packet now p (record s { outgoing = remove k s.outgoing }))
unfolding handle_remote_ack_for_packet
handle-IsCounted now k p s v e =
    Counted-remove k (record (s.cells p.cell) { skip = true }) p v e refl

pub ack_packet-IsCounted : (now i : ℕ) (s : Stream) → IsCounted s → IsCounted (ack_packet now i s)
unfolding ack_packet
ack_packet-IsCounted now i s v = elim (Option-cases (lookup i s.outgoing)) [
  | inl e ↦ rw (e, ack_packet) (rw (remove_of_none i s.outgoing e) v)
  | inr (p, e) ↦ rw (e, ack_packet) (handle-IsCounted now i p s v e)
]
