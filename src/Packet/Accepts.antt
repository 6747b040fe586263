-- ===== src/Packet/Accepts.antt =====
-- Which buffers `Header::from_bytes` of src/packet.rs accepts.
use async_udx.Prelude.{
  ℕ, ◌≤◌, ◌<◌, ◌≡◌, ◌≢◌, refl, ◌⊎◌, inl, inr, List, ◌∷◌, Option, none, some, true, false, length,
  get_elem?, arith, Bool-cases, ltb→le, ltb→lt, ltb,
}
use async_udx.Error.{ok, err}
use async_udx.Packet.Header.{Header, bad_header, differs, read_fields, from_bytes}
use async_udx.Packet.Codec.{word_ind}

differs→ne : (o : Option ℕ) (b : ℕ) → differs o b ≡ true → o ≢ some b
differs→ne none b h e = cc
differs→ne (some x) b h e = ground arith

differs→eq : (o : Option ℕ) (b : ℕ) → differs o b ≡ false → o ≡ some b
differs→eq none b h = cc
differs→eq (some x) b h = ground arith

abbrev Readable : List ℕ → Type 0
Readable buf = (h : Header) × (read_fields buf ≡ ok h)

read_fields_total : (buf : List ℕ) → 20 ≤ length buf → Readable buf
unfolding read_fields
read_fields_total = word_ind Readable 16 λ a b c d.
    word_ind (λ xs. Readable (a ∷ b ∷ c ∷ d ∷ xs)) 12
      λ e f g k.
        word_ind (λ xs. Readable (a ∷ b ∷ c ∷ d ∷ e ∷ f ∷ g ∷ k ∷ xs)) 8
          λ l m n o.
            word_ind (λ xs. Readable (a ∷ b ∷ c ∷ d ∷ e ∷ f ∷ g ∷ k ∷ l ∷ m ∷ n ∷ o ∷ xs)) 4
              λ p q r s.
                word_ind
                  (λ xs.
                    Readable (a ∷ b ∷ c ∷ d ∷ e ∷ f ∷ g ∷ k ∷ l ∷ m ∷ n ∷ o ∷ p ∷ q ∷ r ∷ s ∷ xs))
                  0 λ t u v w rest _. (_, refl)

-- `from_bytes` reads a header from a buffer that has 20 bytes and starts with the magic byte and the
-- version, and answers `Bad header` on a buffer that is shorter or starts otherwise.
pub from_bytes_accepts :
    (buf : List ℕ)
    → ((h : Header) × (from_bytes buf ≡ ok h)
        × (20 ≤ length buf)
        × (get_elem? buf 0 ≡ some 255)
        × (get_elem? buf 1 ≡ some 1))
      ⊎ ((from_bytes buf ≡ err bad_header)
          × ((length buf < 20) ⊎ (get_elem? buf 0 ≢ some 255) ⊎ (get_elem? buf 1 ≢ some 1)))
unfolding from_bytes
from_bytes_accepts buf = elim (Bool-cases (ltb (length buf) 20)) [
  | inl short ↦ inr (ground arith, inl (ltb→lt _ _ short))
  | inr long ↦ elim (Bool-cases (differs (get_elem? buf 0) 255)) [
    | inl other ↦ inr (ground arith, inr (inl (differs→ne _ 255 other)))
    | inr magic ↦ elim (Bool-cases (differs (get_elem? buf 1) 1)) [
      | inl other ↦ inr (ground arith, inr (inr (differs→ne _ 1 other)))
      | inr version ↦
          let (h, e) = read_fields_total buf (ltb→le _ _ long) in
          inl (h, ground arith, ltb→le _ _ long, differs→eq _ 255 magic, differs→eq _ 1 version)
    ]
  ]
]
