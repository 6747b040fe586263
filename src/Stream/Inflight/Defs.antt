-- ===== src/Stream/Inflight/Defs.antt =====
-- The invariant, and what it bounds.
use async_udx.Prelude.{ℕ, ◌*◌, ◌≤◌, ◌<◌, ◌≡◌, u32_mod, arith, length}
use async_udx.Packet.Types.{Shared, Cells, packet_len, data_len}
use async_udx.Stream.Defs.{Stream}
use async_udx.Stream.Outgoing.{Outgoing, Below, Small, total, weight, payload, length-le, total-le}

-- `inflight` counts the bytes of the packets that are not waiting, `inflight_bytes` the data of all,
-- and `inflight_packets` their number; sequence numbers and addresses fall along `outgoing`.
pub record Counted (o : Outgoing) (cells : Cells)
    (next_cell seq inflight inflight_bytes inflight_packets : ℕ) : Type 0 where
  pub sorted : Below seq next_cell o
  pub small : Small o
  pub flying : inflight ≡ total (weight cells) o
  pub bytes : inflight_bytes ≡ total payload o
  pub packets : inflight_packets ≡ length o
  pub seq_fits : seq < u32_mod

abbrev pub IsCounted : Stream → Type 0
IsCounted s =
    Counted s.outgoing s.cells s.next_cell s.seq s.inflight s.stats.inflight_bytes
      s.stats.inflight_packets

pub weight-le : (cells : Cells) (p : Shared) → weight cells p ≤ packet_len p.packet
weight-le cells p = ground arith

pub payload-le : (p : Shared) → payload p ≤ packet_len p.packet
unfolding data_len
payload-le p = omega arith

-- No counter comes near the end of `usize`.
pub Counted-bounds :
    {o : Outgoing} {cells : Cells} {c seq inflight bytes packets : ℕ}
    → Counted o cells c seq inflight bytes packets
    → (inflight ≤ 1400 * seq) × (bytes ≤ 1400 * seq) × (packets ≤ seq)
Counted-bounds {o} {cells} {c} {seq} v = omega (
  arith,
  length-le seq c o v.sorted,
  total-le (weight cells) o (weight-le cells) v.small,
  total-le payload o payload-le v.small,
)
