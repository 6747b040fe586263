-- ===== src/Packet/Codec.antt =====
-- `Header::encode` and `Header::from_bytes` against the layout of the wire format.
use async_udx.Prelude.{
  ℕ, ◌+◌, ◌*◌, ◌/◌, ◌%◌, ◌≤◌, ◌<◌, ◌≡◌, ◌≢◌, ◌⊎◌, inl, inr, List, [], ◌∷◌, ◌++◌, true, false,
  length, drop, All, arith, u32_mod, Bool-cases, ltb→le, ltb,
}
use async_udx.Constants.{udx_header_size}
use async_udx.Error.{ok}
use async_udx.Packet.Bytes.{IsByte, to_le_bytes, copy_at-drop}
use async_udx.Packet.Header.{Header, read_fields, from_bytes, write_fields, encode}

-- The layout: magic byte, version, type, data offset, and four little-endian words.
abbrev pub header_bytes : Header → List ℕ
header_bytes h =
    255
    ∷ 1
    ∷ (h.typ % 256)
    ∷ (h.data_offset % 256)
    ∷ (to_le_bytes h.stream_id
        ++ (to_le_bytes h.recv_win ++ (to_le_bytes h.seq ++ to_le_bytes h.ack)))

-- The fields fit the widths that the wire gives them.
pub record Fits (h : Header) : Type 0 where
  pub typ : h.typ < 256
  pub data_offset : h.data_offset < 256
  pub stream_id : h.stream_id < u32_mod
  pub recv_win : h.recv_win < u32_mod
  pub seq : h.seq < u32_mod
  pub ack : h.ack < u32_mod

pub write_fields_lem :
    (h : Header) (buf : List ℕ)
    → 20 ≤ length buf
    → write_fields h buf ≡ header_bytes h ++ drop 20 buf
unfolding write_fields
write_fields_lem h buf le = rw (
  copy_at-drop 0 (255 ∷ []) buf (omega arith),
  copy_at-drop 1 (1 ∷ []) buf (omega arith),
  copy_at-drop 2 ((h.typ % 256) ∷ []) buf (omega arith),
  copy_at-drop 3 ((h.data_offset % 256) ∷ []) buf (omega arith),
  copy_at-drop 4 (to_le_bytes h.stream_id) buf (omega arith),
  copy_at-drop 8 (to_le_bytes h.recv_win) buf (omega arith),
  copy_at-drop 12 (to_le_bytes h.seq) buf (omega arith),
  copy_at-drop 16 (to_le_bytes h.ack) buf (omega arith),
)

-- `encode` refuses a buffer below 20 bytes and leaves it as it is; on any other it writes the layout
-- over the first 20 bytes and keeps the rest.
pub encode-header_bytes :
    (h : Header) (buf : List ℕ)
    → ((length buf < 20) × (encode h buf ≡ (false, buf)))
      ⊎ ((20 ≤ length buf) × (encode h buf ≡ (true, header_bytes h ++ drop 20 buf)))
unfolding encode
encode-header_bytes h buf = ground (arith, write_fields_lem h buf)

-- A word is put together again from its four bytes.
join_word :
    (n : ℕ)
    → n < u32_mod
    → n % 256 + 256 * (n / 256 % 256) + 65536 * (n / 65536 % 256) + 16777216 * (n / 16777216 % 256)
      ≡ n
join_word n h = omega arith

read_fields-header_bytes :
    (h : Header) (rest : List ℕ) → Fits h → read_fields (header_bytes h ++ rest) ≡ ok h
unfolding read_fields
read_fields-header_bytes h rest f = λ i. ok (record {
  typ = typ i;
  data_offset = data_offset i;
  stream_id = join_word h.stream_id f.stream_id i;
  recv_win = join_word h.recv_win f.recv_win i;
  seq = join_word h.seq f.seq i;
  ack = join_word h.ack f.ack i;
})
  where
    typ : h.typ % 256 ≡ h.typ
    typ = omega arith

    data_offset : h.data_offset % 256 ≡ h.data_offset
    data_offset = omega arith

-- A header whose fields fit is read back as it was written, whatever follows it.
pub from_bytes-header_bytes :
    (h : Header) (rest : List ℕ) → Fits h → from_bytes (header_bytes h ++ rest) ≡ ok h
unfolding from_bytes
from_bytes-header_bytes h rest f = ground (arith, read_fields-header_bytes h rest f)

-- What holds of every list that starts with a word holds of every list of four bytes or more.
pub word_ind :
    (P : List ℕ → Type 0) (n : ℕ)
    → ((a b c d : ℕ) (ys : List ℕ) → n ≤ length ys → P (a ∷ b ∷ c ∷ d ∷ ys))
    → (xs : List ℕ) → 4 + n ≤ length xs
    → P xs
word_ind P n step (a ∷ b ∷ c ∷ d ∷ ys) h = step a b c d ys (omega arith)
word_ind P n step [] h = absurd (omega arith)
word_ind P n step (a ∷ []) h = absurd (omega arith)
word_ind P n step (a ∷ b ∷ []) h = absurd (omega arith)
word_ind P n step (a ∷ b ∷ c ∷ []) h = absurd (omega arith)

-- A word of four bytes: it fits 32 bits, and its bytes are those.
word_bytes :
    (a b c d n : ℕ)
    → IsByte a
    → IsByte b
    → IsByte c
    → IsByte d
    → a + 256 * b + 65536 * c + 16777216 * d ≡ n
    → (n < u32_mod)
      × (n % 256 ≡ a)
      × (n / 256 % 256 ≡ b)
      × (n / 65536 % 256 ≡ c)
      × (n / 16777216 % 256 ≡ d)
word_bytes a b c d n ha hb hc hd e = omega arith

-- The fields of a header that was read from these bytes.
abbrev Decoded : Header → (a b c d e f g k l m n o p q r s t u v w : ℕ) → Type 0
Decoded h a b c d e f g k l m n o p q r s t u v w =
    (a ≡ 255)
    × (b ≡ 1)
    × (c ≡ h.typ)
    × (d ≡ h.data_offset)
    × (e + 256 * f + 65536 * g + 16777216 * k ≡ h.stream_id)
    × (l + 256 * m + 65536 * n + 16777216 * o ≡ h.recv_win)
    × (p + 256 * q + 65536 * r + 16777216 * s ≡ h.seq)
    × (t + 256 * u + 65536 * v + 16777216 * w ≡ h.ack)

decoded :
    (h : Header) (a b c d e f g k l m n o p q r s t u v w : ℕ) (rest : List ℕ)
    → from_bytes
        (a ∷ b ∷ c ∷ d ∷ e ∷ f ∷ g ∷ k ∷ l ∷ m ∷ n ∷ o ∷ p ∷ q ∷ r ∷ s ∷ t ∷ u ∷ v ∷ w ∷ rest)
      ≡ ok h
    → Decoded h a b c d e f g k l m n o p q r s t u v w
unfolding from_bytes read_fields
decoded h a b c d e f g k l m n o p q r s t u v w rest eq = ground arith

abbrev Wrote : Header → List ℕ → Type 0
Wrote h buf = Fits h × (buf ≡ header_bytes h ++ drop 20 buf)

Decoded-Wrote :
    (h : Header) (a b c d e f g k l m n o p q r s t u v w : ℕ) (rest : List ℕ)
    → All IsByte
        (a ∷ b ∷ c ∷ d ∷ e ∷ f ∷ g ∷ k ∷ l ∷ m ∷ n ∷ o ∷ p ∷ q ∷ r ∷ s ∷ t ∷ u ∷ v ∷ w ∷ rest)
    → Decoded h a b c d e f g k l m n o p q r s t u v w
    → Wrote h (a ∷ b ∷ c ∷ d ∷ e ∷ f ∷ g ∷ k ∷ l ∷ m ∷ n ∷ o ∷ p ∷ q ∷ r ∷ s ∷ t ∷ u ∷ v ∷ w ∷ rest)
Decoded-Wrote h a b c d e f g k l m n o p q r s t u v w rest bytes eq =
    let id =
      word_bytes e f g k h.stream_id (omega arith) (omega arith) (omega arith) (omega arith)
        (omega arith) in
    let win =
      word_bytes l m n o h.recv_win (omega arith) (omega arith) (omega arith) (omega arith)
        (omega arith) in
    let seq =
      word_bytes p q r s h.seq (omega arith) (omega arith) (omega arith) (omega arith)
        (omega arith) in
    let ack =
      word_bytes t u v w h.ack (omega arith) (omega arith) (omega arith) (omega arith)
        (omega arith) in
    (omega arith, ground arith)

refused : (buf : List ℕ) (h : Header) → ltb (length buf) 20 ≡ true → from_bytes buf ≢ ok h
unfolding from_bytes
refused buf h short e = ground arith

abbrev ReadBack : Header → List ℕ → Type 0
ReadBack h xs = All IsByte xs → from_bytes xs ≡ ok h → Wrote h xs

read_back : (h : Header) (buf : List ℕ) → 20 ≤ length buf → ReadBack h buf
read_back h = word_ind (ReadBack h) 16 λ a b c d.
    word_ind (λ xs. ReadBack h (a ∷ b ∷ c ∷ d ∷ xs)) 12
      λ e f g k.
        word_ind (λ xs. ReadBack h (a ∷ b ∷ c ∷ d ∷ e ∷ f ∷ g ∷ k ∷ xs)) 8
          λ l m n o.
            word_ind (λ xs. ReadBack h (a ∷ b ∷ c ∷ d ∷ e ∷ f ∷ g ∷ k ∷ l ∷ m ∷ n ∷ o ∷ xs)) 4
              λ p q r s.
                word_ind
                  (λ xs.
                    ReadBack h (a ∷ b ∷ c ∷ d ∷ e ∷ f ∷ g ∷ k ∷ l ∷ m ∷ n ∷ o ∷ p ∷ q ∷ r ∷ s ∷ xs))
                  0
                  λ t u v w rest _ bytes eq.
                    Decoded-Wrote h a b c d e f g k l m n o p q r s t u v w rest bytes
                      (decoded h a b c d e f g k l m n o p q r s t u v w rest eq)

-- The header that `from_bytes` reads from bytes fits, and they start with what it is written as.
pub header_bytes-from_bytes :
    (buf : List ℕ) (h : Header)
    → All IsByte buf
    → from_bytes buf ≡ ok h
    → Fits h × (buf ≡ header_bytes h ++ drop 20 buf)
header_bytes-from_bytes buf h bytes e = elim (Bool-cases (ltb (length buf) udx_header_size)) [
  | inl short ↦ absurd (refused buf h short e)
  | inr long ↦ read_back h buf (ltb→le _ _ long) bytes e
]
