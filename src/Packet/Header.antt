-- ===== src/Packet/Header.antt =====
-- `Header` of src/packet.rs: the 20 bytes in front of every packet.
use async_udx.Prelude.{
  ℕ, ◌%◌, List, [], ◌∷◌, Option, none, some, Bool, true, false, ◌||◌, not, length, ltb, ◌==◌,
  if◌then◌else◌, get_elem?, u8_mod,
}
use async_udx.Constants.{udx_header_size, udx_magic_byte, udx_version}
use async_udx.Error.{Outcome, ok, err, panic, IoError, invalid_data}
use async_udx.Packet.Bytes.{slice, copy_at, to_le_bytes, read_u32_le}

pub record Header : Type 0 where
  pub typ : ℕ
  pub data_offset : ℕ
  pub stream_id : ℕ
  pub recv_win : ℕ
  pub seq : ℕ
  pub ack : ℕ

abbrev pub bad_header : IoError
bad_header = record { kind = invalid_data; message = "Bad header" }

-- An index or a conversion out of range panics.
infixl 5 ◌>>=◌
abbrev pub ◌>>=◌ : {A B : Type 0} → Option A → (A → Outcome B) → Outcome B
none >>= f = panic
some a >>= f = f a

-- The reads of `Header::from_bytes`, once the guard has passed.
unfoldable pub read_fields : List ℕ → Outcome Header
unfolding read_u32_le
read_fields buf = do
  typ ← get_elem? buf 2
  data_offset ← get_elem? buf 3
  local_id ← read_u32_le (slice 4 8 buf)
  recv_win ← read_u32_le (slice 8 12 buf)
  seq ← read_u32_le (slice 12 16 buf)
  ack ← read_u32_le (slice 16 20 buf)
  ok (record {
    typ = typ;
    data_offset = data_offset;
    stream_id = local_id;
    recv_win = recv_win;
    seq = seq;
    ack = ack;
  })

-- `buf[i] != byte`; past the end of `buf` the source panics, which the guard on the length rules out.
abbrev pub differs : Option ℕ → ℕ → Bool
differs none byte = true
differs (some b) byte = not (b == byte)

unfoldable pub from_bytes : List ℕ → Outcome Header
from_bytes buf =
    if ltb (length buf) udx_header_size
      || differs (get_elem? buf 0) udx_magic_byte
      || differs (get_elem? buf 1) udx_version
    then err bad_header
    else read_fields buf

-- The writes of `Header::encode`, one after the other. `as u8` keeps the low byte.
unfoldable pub write_fields : Header → List ℕ → List ℕ
write_fields h buf =
    let buf = copy_at 0 (udx_magic_byte ∷ []) buf in
    let buf = copy_at 1 (udx_version ∷ []) buf in
    let buf = copy_at 2 ((h.typ % u8_mod) ∷ []) buf in
    let buf = copy_at 3 ((h.data_offset % u8_mod) ∷ []) buf in
    let buf = copy_at 4 (to_le_bytes h.stream_id) buf in
    let buf = copy_at 8 (to_le_bytes h.recv_win) buf in
    let buf = copy_at 12 (to_le_bytes h.seq) buf in copy_at 16 (to_le_bytes h.ack) buf

-- The result says whether the buffer was long enough; the buffer is returned with it.
unfoldable pub encode : Header → List ℕ → Bool × List ℕ
unfolding write_fields
encode h buf = if ltb (length buf) udx_header_size then (false, buf) else (true, write_fields h buf)
