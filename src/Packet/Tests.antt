-- ===== src/Packet/Tests.antt =====
-- The theorems on src/packet.rs at concrete inputs.
use async_udx.Prelude.{
  ℕ, ◌*◌, List, some, take, drop, get_elem?, refl, ◌≡◌, ◌++◌, [], ◌∷◌, ◌⊎◌, arith, ◌<◌, ◌≤◌, ◌≢◌,
  length, true, false,
}
use async_udx.Constants.{udx_header_size}
use async_udx.Error.{ok, err}
use async_udx.Packet.Header.{Header, bad_header, from_bytes, encode}
use async_udx.Packet.Types.{
  as_slice, new_packet, owned, Cells, new_flags, PacketRef, deref, Transmit, num_segments,
}
use async_udx.Packet.Set.{PacketSet, to_transmit}
use async_udx.Packet.Build.{from_bytes-new_packet, packet_len-new_packet}
use async_udx.Packet.Segments.{Kept, Equal, to_transmit_segments}
use async_udx.Packet.Accepts.{from_bytes_accepts}
use async_udx.Packet.Codec.{
  header_bytes, Fits, encode-header_bytes, from_bytes-header_bytes, header_bytes-from_bytes,
}

abbrev sample : Header
sample = record { typ = 1; data_offset = 0; stream_id = 7; recv_win = 4294967295; seq = 3; ack = 2 }

sample-Fits : Fits sample
sample-Fits = omega arith

from_bytes-header_bytes_example : from_bytes (header_bytes sample ++ 9 ∷ []) ≡ ok sample
from_bytes-header_bytes_example = from_bytes-header_bytes sample (9 ∷ []) sample-Fits

encode-header_bytes_example :
    ((2 < 20) × (encode sample (0 ∷ 0 ∷ []) ≡ (false, 0 ∷ 0 ∷ [])))
    ⊎ ((20 ≤ 2) × (encode sample (0 ∷ 0 ∷ []) ≡ (true, header_bytes sample ++ [])))
encode-header_bytes_example = encode-header_bytes sample (0 ∷ 0 ∷ [])

header_bytes-from_bytes_example :
    Fits sample × (header_bytes sample ++ 9 ∷ [] ≡ header_bytes sample ++ 9 ∷ [])
header_bytes-from_bytes_example =
    header_bytes-from_bytes (header_bytes sample ++ 9 ∷ []) sample (omega arith)
      from_bytes-header_bytes_example

from_bytes-new_packet_example :
    (from_bytes (as_slice (new_packet 5 sample (8 ∷ [])).buf) ≡ ok sample)
    × (drop udx_header_size (as_slice (new_packet 5 sample (8 ∷ [])).buf) ≡ 8 ∷ [])
from_bytes-new_packet_example = from_bytes-new_packet 5 sample (8 ∷ []) sample-Fits

from_bytes_accepts_example :
    ((h : Header) × (from_bytes (header_bytes sample ++ 9 ∷ []) ≡ ok h)
      × (20 ≤ length (header_bytes sample ++ 9 ∷ []))
      × (get_elem? (header_bytes sample ++ 9 ∷ []) 0 ≡ some 255)
      × (get_elem? (header_bytes sample ++ 9 ∷ []) 1 ≡ some 1))
    ⊎ ((from_bytes (header_bytes sample ++ 9 ∷ []) ≡ err bad_header)
        × ((length (header_bytes sample ++ 9 ∷ []) < 20)
            ⊎ (get_elem? (header_bytes sample ++ 9 ∷ []) 0 ≢ some 255)
            ⊎ (get_elem? (header_bytes sample ++ 9 ∷ []) 1 ≢ some 1)))
from_bytes_accepts_example = from_bytes_accepts (header_bytes sample ++ 9 ∷ [])

-- Two packets of 21 bytes.
abbrev packets : List PacketRef
packets = owned (new_packet 5 sample (8 ∷ [])) ∷ owned (new_packet 5 sample (9 ∷ [])) ∷ []

abbrev pair : PacketSet
pair = record { dest = 5; segment_size = some 21; packets = packets }

abbrev cells : Cells
cells c = new_flags

pair-Kept : Kept cells packets
pair-Kept = (refl, (refl, tt))

pair-Equal : Equal 21 packets
pair-Equal =
    ((packet_len-new_packet 5 sample (8 ∷ [])).0, ((packet_len-new_packet 5 sample (9 ∷ [])).0, tt))

to_transmit_segments_example :
    (t : Transmit) × (to_transmit cells pair ≡ ok t)
    × (t.destination ≡ 5)
    × (num_segments t ≡ 2)
    × ((i : ℕ) (p : PacketRef)
        → get_elem? packets i ≡ some p
        → take 21 (drop (i * 21) t.contents) ≡ as_slice (deref p).buf)
to_transmit_segments_example =
    to_transmit_segments cells pair 21 refl (omega arith) pair-Kept pair-Equal
