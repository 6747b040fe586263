-- ===== src/Packet/Bytes.antt =====
-- Slices of bytes, and 32-bit little-endian integers: the calls of the standard library that
-- src/packet.rs makes on them. A byte is a number below 256.
use async_udx.Prelude.{
  ℕ, zero, suc, ◌+◌, ◌-◌, ◌*◌, ◌/◌, ◌%◌, ◌<◌, ◌≤◌, ◌≡◌, refl, ap, List, [], ◌∷◌, ◌++◌, Option, none,
  some, arith, take, drop, length, u32_mod, drop-drop, length-drop, All,
}

abbrev pub IsByte : ℕ → Type 0
IsByte b = b < 256

-- `buf[i..j]`
abbrev pub slice : ℕ → ℕ → List ℕ → List ℕ
slice i j buf = take (j - i) (drop i buf)

-- `buf[at..at + bytes.len()].copy_from_slice(bytes)`
abbrev pub copy_at : ℕ → List ℕ → List ℕ → List ℕ
copy_at zero [] buf = buf
copy_at zero (b ∷ bs) [] = []
copy_at zero (b ∷ bs) (x ∷ buf) = b ∷ copy_at zero bs buf
copy_at (suc i) bs [] = []
copy_at (suc i) bs (x ∷ buf) = x ∷ copy_at i bs buf

-- `u32::to_le_bytes`
abbrev pub to_le_bytes : ℕ → List ℕ
to_le_bytes n = (n % 256) ∷ (n / 256 % 256) ∷ (n / 65536 % 256) ∷ (n / 16777216 % 256) ∷ []

-- `read_u32_le`. Where the slice has not four bytes the source panics: `none`.
unfoldable pub read_u32_le : List ℕ → Option ℕ
read_u32_le (a ∷ b ∷ c ∷ d ∷ []) = some (a + 256 * b + 65536 * c + 16777216 * d)
read_u32_le _ = none

pub read_u32_le-to_le_bytes : (n : ℕ) → n < u32_mod → read_u32_le (to_le_bytes n) ≡ some n
unfolding read_u32_le
read_u32_le-to_le_bytes n h = ap some (omega arith)

pub to_le_bytes-IsByte : (n : ℕ) → All IsByte (to_le_bytes n)
to_le_bytes-IsByte n = omega arith

copy_at-zero :
    (bs rest : List ℕ)
    → length bs ≤ length rest
    → copy_at zero bs rest ≡ bs ++ drop (length bs) rest
copy_at-zero [] rest h = refl
copy_at-zero (b ∷ bs) [] h = absurd (omega arith)
copy_at-zero (b ∷ bs) (x ∷ rest) h = ap (◌∷◌ b) (copy_at-zero bs rest (omega arith))

-- A copy at the front of what is left from index `i` on.
pub copy_at-drop :
    (i : ℕ) (bs buf : List ℕ)
    → i + length bs ≤ length buf
    → copy_at zero bs (drop i buf) ≡ bs ++ drop (i + length bs) buf
copy_at-drop i bs buf h =
    rw
      (copy_at-zero bs (drop i buf) (omega (arith, length-drop i buf)), drop-drop (length bs) i buf)
