-- ===== src/Packet/Segments.antt =====
-- What `PacketSet::to_transmit` of src/packet.rs makes of a set of equal packets.
use async_udx.Prelude.{
  ℕ, zero, suc, ◌+◌, ◌*◌, ◌/◌, ◌≤◌, ◌≡◌, refl, sym, ap, List, [], ◌∷◌, ◌++◌, none, some, false,
  get_elem?, length, length-append, arith, All, take, drop, take-append, drop-append, if◌then◌else◌,
  ◌==◌, ==→eq, drop-drop, Bool-cases, inl, inr,
}
use async_udx.Error.{ok}
use async_udx.Packet.Types.{
  PacketRef, deref, flags_of, Cells, Transmit, num_segments, packet_len, as_slice,
}
use async_udx.Packet.Set.{PacketSet, put_slices, to_transmit}

-- No packet was acknowledged before it could be sent again.
abbrev pub Kept : Cells → List PacketRef → Type 0
Kept cells = All (λ p. (flags_of cells p).skip ≡ false)

abbrev pub Equal : ℕ → List PacketRef → Type 0
Equal size = All (λ p. packet_len (deref p) ≡ size)

length-put_slices :
    (cells : Cells) (size : ℕ) (ps : List PacketRef)
    → Kept cells ps
    → Equal size ps
    → length (put_slices cells ps) ≡ length ps * size
unfolding put_slices packet_len
length-put_slices cells size [] k e = omega arith
length-put_slices cells size (p ∷ ps) k e = rw k.0 (
    omega (
      arith,
      length-append (as_slice (deref p).buf) (put_slices cells ps),
      length-put_slices cells size ps k.1 e.1,
      e.0,
      product,
    ))
  where
    product : suc (length ps) * size ≡ size + length ps * size
    product = grind arith

-- The `i`-th segment of the buffer is the `i`-th packet.
segment :
    (cells : Cells) (size i : ℕ) (ps : List PacketRef) (p : PacketRef)
    → Kept cells ps
    → Equal size ps
    → get_elem? ps i ≡ some p
    → take size (drop (i * size) (put_slices cells ps)) ≡ as_slice (deref p).buf
unfolding put_slices packet_len
segment cells size i [] p k e h = cc
segment cells size zero (q ∷ ps) p k e h =
    let same : zero * size ≡ zero = omega arith in
    rw (same, k.0, ← e.0, take-append) (ap (λ r. as_slice (deref r).buf) (unsome q p h))
  where
    unsome : (q p : PacketRef) → some q ≡ some p → q ≡ p
    unsome q p e = cc
segment cells size (suc i) (q ∷ ps) p k e h =
    let product : suc i * size ≡ size + i * size = grind arith in
    rw (product, k.0, ← drop-drop (i * size) size)
      (rw skipped (segment cells size i ps p k.1 e.1 h))
  where
    skipped : drop size (as_slice (deref q).buf ++ put_slices cells ps) ≡ put_slices cells ps
    skipped = rw (← e.0) (drop-append (as_slice (deref q).buf) (put_slices cells ps))

-- A set of packets that are not acknowledged yet, all of the length that the set has as its segment
-- size, becomes one transmit to the set's address: it counts as many segments as the set has packets,
-- and its `i`-th segment is the buffer of the `i`-th packet.
pub to_transmit_segments :
    (cells : Cells) (set : PacketSet) (size : ℕ)
    → set.segment_size ≡ some size
    → 1 ≤ size
    → Kept cells set.packets
    → Equal size set.packets
    → (t : Transmit) × (to_transmit cells set ≡ ok t)
      × (t.destination ≡ set.dest)
      × (num_segments t ≡ length set.packets)
      × ((i : ℕ) (p : PacketRef)
          → get_elem? set.packets i ≡ some p
          → take size (drop (i * size) t.contents) ≡ as_slice (deref p).buf)
unfolding to_transmit num_segments
to_transmit_segments cells set size e positive k eq = (
  record {
    destination = set.dest;
    ecn = none;
    contents = put_slices cells set.packets;
    segment_size = if length set.packets == 1 then none else some size;
    src_ip = none;
  },
  rw e refl,
  refl,
  elim (Bool-cases (length set.packets == 1)) [
    | inl one ↦ rw one (sym (==→eq _ _ one))
    | inr more ↦
        rw (more, length-put_slices cells size set.packets k eq) (quotient (length set.packets))
  ],
  λ i p. segment cells size i set.packets p k eq,
)
  where
    quotient : (n : ℕ) → n * size / size ≡ n
    quotient n = grind arith
