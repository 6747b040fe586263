-- ===== src/Packet/Total.antt =====
-- What `Header::from_bytes` of src/packet.rs answers on any bytes.
use async_udx.Prelude.{ℕ, ◌≡◌, ◌⊎◌, inl, inr, List}
use async_udx.Error.{Outcome, ok, err}
use async_udx.Packet.Header.{Header, bad_header, from_bytes}
use async_udx.Packet.Accepts.{from_bytes_accepts}

abbrev Verdict : Outcome Header → Type 0
Verdict o = (o ≡ err bad_header) ⊎ ((h : Header) × (o ≡ ok h))

-- Every sequence of bytes is refused with the one error, or decoded.
pub from_bytes-total : (buf : List ℕ) → Verdict (from_bytes buf)
from_bytes-total buf = elim (from_bytes_accepts buf) [
  | inl (h, read, _, _, _) ↦ inr (h, read)
  | inr (refused, _) ↦ inl refused
]
