-- ===== src/Packet/Set.antt =====
-- `PacketSet` of src/packet.rs: packets that go out in one call, as segments of one buffer.
use async_udx.Prelude.{ℕ, List, [], ◌∷◌, ◌++◌, Option, none, some, length, if◌then◌else◌, ◌==◌}
use async_udx.Error.{Outcome, ok, panic}
use async_udx.Packet.Types.{
  SocketAddr, PacketRef, owned, shared, Shared, Cells, Transmit, deref, flags_of, as_slice,
  packet_to_transmit,
}

pub record PacketSet : Type 0 where
  pub dest : SocketAddr
  pub segment_size : Option ℕ
  pub packets : List PacketRef

-- `PacketSet::new`
unfoldable pub new_set : SocketAddr → List PacketRef → ℕ → PacketSet
new_set dest packets segment_size = record {
  dest = dest;
  segment_size = some segment_size;
  packets = packets;
}

-- `PacketSet::len`
abbrev pub set_len : PacketSet → ℕ
set_len s = length s.packets

-- `PacketSet::iter_shared`
unfoldable pub iter_shared : List PacketRef → List Shared
iter_shared [] = []
iter_shared (owned p ∷ ps) = iter_shared ps
iter_shared (shared s ∷ ps) = s ∷ iter_shared ps

-- The loop of `PacketSet::to_transmit`: the packets that are not to be skipped, one behind the other.
unfoldable pub put_slices : Cells → List PacketRef → List ℕ
put_slices cells [] = []
put_slices cells (p ∷ ps) =
    let rest = put_slices cells ps in
    if (flags_of cells p).skip then rest else as_slice (deref p).buf ++ rest

abbrev single : List PacketRef → Outcome Transmit
single (p ∷ []) = ok (packet_to_transmit (deref p))
single _ = panic

-- `PacketSet::to_transmit`, which asserts that a set with no segment size holds one packet.
unfoldable pub to_transmit : Cells → PacketSet → Outcome Transmit
unfolding put_slices
to_transmit cells s = elim s.segment_size [
  | none ↦ single s.packets
  | some size ↦ ok (record {
    destination = s.dest;
    ecn = none;
    contents = put_slices cells s.packets;
    segment_size = if length s.packets == 1 then none else some size;
    src_ip = none;
  })
]
