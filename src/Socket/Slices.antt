-- ===== src/Socket/Slices.antt =====
-- The memory that src/socket.rs receives into: how `iovectors_from_buf` cuts the receive buffer.
use async_udx.Prelude.{
  ℕ, zero, suc, ◌+◌, ◌-◌, ◌/◌, List, [], ◌∷◌, Option, none, some, true, false, ◌||◌, ◌==◌,
  if◌then◌else◌, ltb, min, length, set, replicate,
}

-- A part of the buffer: its first byte and its length.
pub record Slice : Type 0 where
  pub start : ℕ
  pub len : ℕ

-- `chunks_mut`, on fuel for its chunks: `left` bytes from `start` on, cut into parts of `size` bytes, of
-- which the last one may be shorter.
unfoldable pub chunks_mut : ℕ → ℕ → ℕ → ℕ → List Slice
chunks_mut zero size start left = []
chunks_mut (suc n) size start left = elim (left == 0) [
  | true ↦ []
  | false ↦
      record { start = start; len = min size left } ∷ chunks_mut n size (start + size) (left - size)
]

-- The writes of `for_each` through the raw pointer, from slot `i` on. An array's slot is `none` until
-- it is written; the answer is `none` where a write goes past the end of the array.
unfoldable pub write_slots : ℕ → List Slice → List (Option Slice) → Option (List (Option Slice))
write_slots i [] slots = some slots
write_slots i (chunk ∷ chunks) slots =
    if ltb i (length slots) then write_slots (i + 1) chunks (set slots i (some chunk)) else none

-- What the unsafe code makes: an array of slices, undefined behaviour, or a panic.
pub data IoSlices : Type 0 where
  initialised : List Slice → IoSlices
  undefined : IoSlices
  refused : IoSlices

abbrev pub slot_before : Option Slice → IoSlices → IoSlices
slot_before none slices = undefined
slot_before (some slice) (initialised slices) = initialised (slice ∷ slices)
slot_before (some slice) undefined = undefined
slot_before (some slice) refused = refused

-- `assume_init`, which is defined only if every slot was written.
unfoldable pub assume_init : List (Option Slice) → IoSlices
assume_init [] = initialised []
assume_init (slot ∷ slots) = slot_before slot (assume_init slots)

abbrev pub after_writes : Option (List (Option Slice)) → IoSlices
after_writes none = undefined
after_writes (some slots) = assume_init slots

-- `iovectors_from_buf` with its constant `N`, and the length of the buffer. The division by `N` panics
-- where that is 0, and `chunks_mut` where the size of a chunk is.
unfoldable pub iovectors_from_buf : ℕ → ℕ → IoSlices
iovectors_from_buf n len =
    if n == 0 || len / n == 0
    then refused
    else after_writes (write_slots 0 (chunks_mut len (len / n) 0 len) (replicate n none))
