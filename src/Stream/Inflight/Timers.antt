-- ===== src/Stream/Inflight/Timers.antt =====
-- The accounting over timeouts and retransmissions.
use async_udx.Prelude.{
  ℕ, ◌+◌, ◌≤◌, ◌≡◌, some, arith, add64, sub64_lem, add64_lem, if◌then◌else◌, true, false, not, ltb,
  if-cases,
}
use async_udx.Constants.{udx_max_transmits}
use async_udx.Map.{lookup}
use async_udx.Packet.Types.{Shared, Flags, Cells, update, packet_len}
use async_udx.Stream.Defs.{Stream}
use async_udx.Stream.Timeouts.{mark_packet, flush_packet}
use async_udx.Stream.Invariant.{OnSome}
use async_udx.Stream.Outgoing.{Outgoing, weight, weight-update, lookup-Small, total-remove}
use async_udx.Stream.Inflight.Defs.{Counted, IsCounted, Counted-bounds}

-- A packet's atomics change, and `inflight` with its weight.
Counted-update :
    (k inflight' : ℕ) (f : Flags) (p : Shared) {o : Outgoing} {cells : Cells}
    {c seq inflight bytes packets : ℕ}
    → Counted o cells c seq inflight bytes packets
    → lookup k o ≡ some p
    → inflight' + weight cells p ≡ inflight + (if f.waiting then 0 else packet_len p.packet)
    → Counted o (update cells p.cell f) c seq inflight' bytes packets
Counted-update k inflight' f p {o} {cells} {c} {seq} v e same = record {
  sorted = v.sorted;
  small = v.small;
  flying = omega (arith, weight-update cells seq c k f o {p = p} v.sorted e, v.flying);
  bytes = v.bytes;
  packets = v.packets;
  seq_fits = v.seq_fits;
}

-- A packet that is not waiting is part of `inflight`.
pub Counted-room :
    (k : ℕ) (p : Shared) {o : Outgoing} {cells : Cells} {c seq inflight bytes packets : ℕ}
    → Counted o cells c seq inflight bytes packets
    → lookup k o ≡ some p
    → weight cells p ≤ inflight
Counted-room k p {o} {cells} {c} {seq} v e =
    omega (arith, v.flying, total-remove (weight cells) seq c k o {p = p} v.sorted e)

pub mark_packet-IsCounted :
    (k : ℕ) (p : Shared) (s : Stream)
    → IsCounted s
    → lookup k s.outgoing ≡ some p
    → OnSome IsCounted (mark_packet p s)
unfolding mark_packet
mark_packet-IsCounted k p s v e =
    if-cases (OnSome IsCounted) (s.cells p.cell).waiting (λ _. v)
      λ live.
        if-cases (OnSome IsCounted) (ltb udx_max_transmits (s.cells p.cell).transmits) (λ _. tt)
          λ _.
            Counted-update k _
              (record (s.cells p.cell) {
                transmits = (s.cells p.cell).transmits + 1;
                waiting = true;
              })
              p v e
              (ground (
                arith,
                live,
                Counted-bounds v,
                v.seq_fits,
                Counted-room k p v e,
                sub64_lem s.inflight (packet_len p.packet),
              ))

pub flush_packet-IsCounted :
    (k : ℕ) (p : Shared) (s : Stream)
    → IsCounted s
    → lookup k s.outgoing ≡ some p
    → OnSome IsCounted (flush_packet p s)
unfolding flush_packet
flush_packet-IsCounted k p s v e =
    if-cases (OnSome IsCounted) (not (s.cells p.cell).waiting) (λ _. v)
      λ waits.
        if-cases (OnSome IsCounted) (ltb s.cwnd (add64 s.inflight (packet_len p.packet))) (λ _. tt)
          λ _.
            Counted-update k _ (record (s.cells p.cell) { waiting = false }) p v e
              (ground (
                arith,
                waits,
                Counted-bounds v,
                v.seq_fits,
                lookup-Small k s.outgoing {p = p} v.small e,
                add64_lem s.inflight (packet_len p.packet),
              ))
