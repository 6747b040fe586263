-- ===== src/Packet/Types.antt =====
-- The packets of src/packet.rs, and `Transmit` of udx-udp/src/proto.rs.
-- A packet's atomics (`waiting`, `skip`, `time_sent`, `transmits`) are read and written through every
-- clone of its `Arc`: they stand in a store, at the address that the reference carries. The other
-- fields never change and stand in the reference itself.
use async_udx.Prelude.{
  ℕ, ◌+◌, ◌-◌, ◌/◌, List, [], ◌∷◌, ◌++◌, Option, none, some, Bool, true, false, not, length, take,
  drop, replicate, if◌then◌else◌, ◌==◌, bit_and,
}
use async_udx.Constants.{udx_header_size}
use async_udx.Packet.Bytes.{copy_at}
use async_udx.Packet.Header.{Header, encode}

-- Addresses are compared and passed on, and nothing else.
abbrev pub SocketAddr : Type 0
SocketAddr = ℕ

pub data PacketBuf : Type 0 where
  data_buf header_only : List ℕ → PacketBuf

unfoldable pub as_slice : PacketBuf → List ℕ
as_slice (data_buf vec) = vec
as_slice (header_only array) = array

unfoldable pub into_vec : PacketBuf → List ℕ
into_vec (data_buf buf) = buf
into_vec (header_only buf) = buf

-- What a write through `as_mut_slice` leaves.
abbrev pub as_mut_slice : PacketBuf → (List ℕ → List ℕ) → PacketBuf
as_mut_slice (data_buf vec) write = data_buf (write vec)
as_mut_slice (header_only array) write = header_only (write array)

pub record Packet : Type 0 where
  pub dest : SocketAddr
  pub header : Header
  pub buf : PacketBuf

-- The atomics. `time_sent` is empty until the socket sets it.
pub record Flags : Type 0 where
  pub waiting : Bool
  pub skip : Bool
  pub time_sent : Option ℕ
  pub transmits : ℕ

abbrev pub new_flags : Flags
new_flags = record { waiting = false; skip = false; time_sent = none; transmits = 0 }

abbrev pub Cells : Type 0
Cells = ℕ → Flags

abbrev pub update : Cells → ℕ → Flags → Cells
update cells a f b = if a == b then f else cells b

-- The handle that `Arc::new` gives and `Arc::clone` copies.
pub record Shared : Type 0 where
  pub cell : ℕ
  pub packet : Packet

pub data PacketRef : Type 0 where
  owned : Packet → PacketRef
  shared : Shared → PacketRef

-- `Deref for PacketRef`. The atomics of an owned packet are never written.
abbrev pub deref : PacketRef → Packet
deref (owned p) = p
deref (shared s) = s.packet

abbrev pub flags_of : Cells → PacketRef → Flags
flags_of cells (owned p) = new_flags
flags_of cells (shared s) = cells s.cell

abbrev pub is_empty {ℓ} : {A : Type ℓ} → List A → Bool
is_empty [] = true
is_empty (x ∷ xs) = false

-- `header.encode(&mut buf[..UDX_HEADER_SIZE])`
abbrev pub encode_front : Header → List ℕ → List ℕ
encode_front h buf = (encode h (take udx_header_size buf)).1 ++ drop udx_header_size buf

-- `Packet::new`, with the atomics in their initial state `new_flags`.
unfoldable pub new_packet : SocketAddr → Header → List ℕ → Packet
new_packet dest header body =
    let zeroed =
      if is_empty body
      then header_only (replicate udx_header_size 0)
      else data_buf (replicate (udx_header_size + length body) 0) in
    let encoded = as_mut_slice zeroed (encode_front header) in
    let filled =
      if is_empty body then encoded else as_mut_slice encoded (copy_at udx_header_size body) in
    record { dest = dest; header = header; buf = filled }

abbrev pub packet_seq : Packet → ℕ
packet_seq p = p.header.seq

-- `Packet::len` and `PacketBuf::len`
unfoldable pub packet_len : Packet → ℕ
packet_len p = length (as_slice p.buf)

-- `Packet::data_len`
unfoldable pub data_len : Packet → ℕ
data_len p = packet_len p - udx_header_size

pub data EcnCodepoint : Type 0 where
  ect0 ect1 ce : EcnCodepoint

pub record Transmit : Type 0 where
  pub destination : SocketAddr
  pub ecn : Option EcnCodepoint
  pub contents : List ℕ
  pub segment_size : Option ℕ
  pub src_ip : Option ℕ

-- `Transmit::num_segments`
unfoldable pub num_segments : Transmit → ℕ
num_segments t = segments t.segment_size
  where
    segments : Option ℕ → ℕ
    segments none = 1
    segments (some size) = length t.contents / size

-- `Packet::to_transmit`, and `From<Packet> for Transmit`
unfoldable pub packet_to_transmit : Packet → Transmit
packet_to_transmit p = record {
  destination = p.dest;
  ecn = none;
  contents = as_slice p.buf;
  segment_size = none;
  src_ip = none;
}

unfoldable pub transmit_from : Packet → Transmit
transmit_from p = record {
  destination = p.dest;
  ecn = none;
  contents = into_vec p.buf;
  segment_size = none;
  src_ip = none;
}

pub record Dgram : Type 0 where
  pub buf : List ℕ
  pub dest : SocketAddr

-- `Dgram::into_transmit`
unfoldable pub into_transmit : Dgram → Transmit
into_transmit d = record {
  destination = d.dest;
  ecn = none;
  contents = d.buf;
  segment_size = none;
  src_ip = none;
}

pub record IncomingPacket : Type 0 where
  pub header : Header
  pub buf : List ℕ
  pub read_offset : ℕ
  pub source : SocketAddr

-- `IncomingPacket::has_type`
unfoldable pub has_type : IncomingPacket → ℕ → Bool
has_type p typ = not (bit_and p.header.typ typ == 0)
