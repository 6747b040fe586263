-- ===== src/Packet/Build.antt =====
-- The bytes of a packet made by `Packet::new` of src/packet.rs.
use async_udx.Prelude.{
  ℕ, ◌+◌, ◌≤◌, ◌≡◌, refl, List, [], ◌∷◌, ◌++◌, length, take, drop, replicate, length-replicate,
  append-nil, arith, drop_all, length-take, inl, inr,
}
use async_udx.Constants.{udx_header_size}
use async_udx.Error.{ok}
use async_udx.Packet.Bytes.{copy_at-drop}
use async_udx.Packet.Header.{Header, from_bytes}
use async_udx.Packet.Codec.{header_bytes, Fits, encode-header_bytes, from_bytes-header_bytes}
use async_udx.Packet.Types.{SocketAddr, as_slice, encode_front, new_packet, packet_len, data_len}

encode_front_lem :
    (h : Header) (buf : List ℕ)
    → 20 ≤ length buf
    → encode_front h buf ≡ header_bytes h ++ drop 20 buf
encode_front_lem h buf le = elim (encode-header_bytes h (take 20 buf)) [
  | inl (short, _) ↦ absurd (omega (arith, length-take 20 buf))
  | inr (_, e) ↦ rw (e, none_left) refl
]
  where
    none_left : drop 20 (take 20 buf) ≡ []
    none_left = drop_all 20 (take 20 buf) (omega (arith, length-take 20 buf))

-- A packet's buffer is its header's layout with the body behind it, empty bodies included.
pub as_slice-new_packet :
    (dest : SocketAddr) (h : Header) (body : List ℕ)
    → as_slice (new_packet dest h body).buf ≡ header_bytes h ++ body
unfolding new_packet as_slice
as_slice-new_packet dest h [] = encode_front_lem h (replicate 20 0) (omega arith)
as_slice-new_packet dest h (b ∷ body) = rw (
  encode_front_lem h zeroed (omega (arith, zeros)),
  copy_at-drop 20 (b ∷ body) zeroed (omega (arith, zeros)),
  drop_all (20 + length (b ∷ body)) zeroed (omega (arith, zeros)),
  append-nil,
)
  where
    zeroed : List ℕ
    zeroed = replicate (20 + length (b ∷ body)) 0

    zeros : length zeroed ≡ 20 + length (b ∷ body)
    zeros = length-replicate (20 + length (b ∷ body)) 0

pub packet_len-new_packet :
    (dest : SocketAddr) (h : Header) (body : List ℕ)
    → (packet_len (new_packet dest h body) ≡ 20 + length body)
      × (data_len (new_packet dest h body) ≡ length body)
unfolding packet_len data_len
packet_len-new_packet dest h body =
    let l : length (as_slice (new_packet dest h body).buf) ≡ 20 + length body =
      rw (as_slice-new_packet dest h body) (omega arith) in
    (l, omega (arith, l))

-- A packet made by `Packet::new` from a header that fits is read back by the other side: the header
-- from its buffer, and the body behind it.
pub from_bytes-new_packet :
    (dest : SocketAddr) (h : Header) (body : List ℕ)
    → Fits h
    → (from_bytes (as_slice (new_packet dest h body).buf) ≡ ok h)
      × (drop udx_header_size (as_slice (new_packet dest h body).buf) ≡ body)
from_bytes-new_packet dest h body f =
    rw (as_slice-new_packet dest h body) (from_bytes-header_bytes h body f, refl)
