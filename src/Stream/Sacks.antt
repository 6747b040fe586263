-- ===== src/Stream/Sacks.antt =====
-- The number of ranges that `handle_incoming_sacks` of src/stream.rs reads.
use async_udx.Prelude.{ℕ, zero, suc, ◌+◌, ◌-◌, ◌*◌, ◌/◌, ◌≤◌, ◌<◌, ◌≡◌, List, length, arith}
use native.Mathlib.Decide.{dec_lt}
use async_udx.Stream.Ack.{next_range, sack_ranges}

ranges_from :
    (n i : ℕ) (buf : List ℕ)
    → length buf ≤ i + n
    → length (sack_ranges n i buf) ≡ (length buf - i - 1) / 8
unfolding sack_ranges next_range
ranges_from zero i buf h = omega arith
ranges_from (suc n) i buf h =
    go (dec_lt (i + 8) (length buf)) (ranges_from n (i + 8) buf (omega (arith, h)))
  where
    go :
        (d : Dec (i + 8 < length buf))
        → length (sack_ranges n (i + 8) buf) ≡ (length buf - (i + 8) - 1) / 8
        → length (next_range i buf d (sack_ranges n (i + 8) buf)) ≡ (length buf - i - 1) / 8
    go (yes more) later = omega (arith, more, later)
    go (no done) later = omega (arith, done)

-- The loop ends on its own on every payload, and has read the eighth part of its length less one byte:
-- of a payload of `n` whole ranges, eight bytes each, the last is not read.
pub sack_ranges_number :
    (buf : List ℕ) (n more : ℕ)
    → (length (sack_ranges (length buf + more) 0 buf) ≡ (length buf - 1) / 8)
      × (length buf ≡ 8 * n → length (sack_ranges (length buf + more) 0 buf) ≡ n - 1)
sack_ranges_number buf n more =
    let number = ranges_from (length buf + more) 0 buf (omega arith) in
    (omega (arith, number), λ whole. omega (arith, number, whole))
