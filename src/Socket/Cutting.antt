-- ===== src/Socket/Cutting.antt =====
-- What `iovectors_from_buf` of src/socket.rs makes of a buffer of any length.
use async_udx.Prelude.{
  ℕ, zero, suc, ◌+◌, ◌-◌, ◌*◌, ◌/◌, ◌%◌, ◌≤◌, ◌<◌, ◌≡◌, ◌⊎◌, inl, inr, refl, ap, subst, List, [],
  ◌∷◌, ◌++◌, append_assoc, map, Option, none, some, true, false, ◌||◌, ◌==◌, arith, if-cases,
  Bool-cases, ltb, ltb→lt, min, length, length-append, set, set-append, length-set, replicate,
  length-replicate,
}
use native.Mathlib.Nat.{mod-add-div, mod-lt, zero-mul}
use async_udx.Socket.Slices.{
  Slice, chunks_mut, write_slots, IoSlices, initialised, undefined, refused, assume_init,
  after_writes, iovectors_from_buf,
}

-- Slices of one size, one behind the other.
unfoldable pub evenly : ℕ → ℕ → ℕ → List Slice
evenly zero size start = []
evenly (suc n) size start = record { start = start; len = size } ∷ evenly n size (start + size)

length-evenly : (n size start : ℕ) → length (evenly n size start) ≡ n
unfolding evenly
length-evenly zero size start = refl
length-evenly (suc n) size start = ap suc (length-evenly n size (start + size))

chunks_mut_more :
    (fuel size start left : ℕ)
    → 1 ≤ left
    → chunks_mut (suc fuel) size start left
      ≡ record { start = start; len = min size left }
        ∷ chunks_mut fuel size (start + size) (left - size)
unfolding chunks_mut
chunks_mut_more fuel size start left some_left =
    let more : (left == 0) ≡ false = ground (arith, some_left) in rw (more, chunks_mut) refl

-- As many bytes as `n` chunks have are cut into those.
chunks_mut-evenly :
    (fuel n size start : ℕ)
    → n ≤ fuel
    → 1 ≤ size
    → chunks_mut fuel size start (n * size) ≡ evenly n size start
unfolding chunks_mut evenly
chunks_mut-evenly zero zero size start le some_size = refl
chunks_mut-evenly zero (suc n) size start le some_size = absurd (omega arith)
chunks_mut-evenly (suc fuel) zero size start le some_size = rw (zero-mul, chunks_mut) refl
chunks_mut-evenly (suc fuel) (suc n) size start le some_size =
    let e : suc n * size ≡ size + n * size = grind arith in
    let whole : min size (size + n * size) ≡ size = omega arith in
    let rest : size + n * size - size ≡ n * size = omega arith in
    rw
      (e, chunks_mut_more fuel size start (size + n * size) (omega (arith, some_size)), whole, rest)
      (ap (λ (chunks : List Slice). record { start = start; len = size } ∷ chunks)
        (chunks_mut-evenly fuel n size (start + size) (omega (arith, le)) some_size))

-- More bytes than `n` chunks have are cut into more chunks.
lt-chunks_mut :
    (fuel n size start left : ℕ)
    → left ≤ fuel
    → 1 ≤ size
    → n * size < left
    → n < length (chunks_mut fuel size start left)
unfolding chunks_mut
lt-chunks_mut zero n size start left le some_size more = absurd (omega arith)
lt-chunks_mut (suc fuel) zero size start left le some_size more =
    rw (chunks_mut_more fuel size start left (omega (arith, more))) (omega arith)
lt-chunks_mut (suc fuel) (suc n) size start left le some_size more =
    let e : suc n * size ≡ size + n * size = grind arith in
    let later =
      lt-chunks_mut fuel n size (start + size) (left - size) (omega (arith, le, some_size))
        some_size (omega (arith, e, more)) in
    rw (chunks_mut_more fuel size start left (omega (arith, e, more))) (omega (arith, later))

-- More writes than there are slots left go past the end.
write_slots_past :
    (i : ℕ) (chunks : List Slice) (slots : List (Option Slice))
    → length slots < i + length chunks
    → i ≤ length slots
    → write_slots i chunks slots ≡ none
unfolding write_slots
write_slots_past i [] slots more le = absurd (omega arith)
write_slots_past i (c ∷ chunks) slots more le =
    if-cases (λ r. r ≡ none) (ltb i (length slots))
      (λ room.
        write_slots_past (i + 1) chunks (set slots i (some c))
          (omega (arith, length-set slots i (some c), more))
          (omega (arith, length-set slots i (some c), ltb→lt _ _ room)))
      (λ _. refl)

-- As many writes as there are slots left fill those.
write_slots_all :
    (before : List (Option Slice)) (chunks : List Slice)
    → write_slots (length before) chunks (before ++ replicate (length chunks) none)
      ≡ some (before ++ map some chunks)
unfolding write_slots
write_slots_all before [] = refl
write_slots_all before (c ∷ chunks) =
    let blank = replicate (length chunks) none in
    let longer = length-append before (none ∷ blank) in
    let room : ltb (length before) (length (before ++ none ∷ blank)) ≡ true =
      ground (arith, longer) in
    let later : write_slots (length before + 1) chunks (before ++ some c ∷ blank)
        ≡ some (before ++ some c ∷ map some chunks) =
      rw (length-append before (some c ∷ []), append_assoc, append_assoc) at
        (write_slots_all (before ++ some c ∷ []) chunks) in
    rw (room, set-append before none blank (some c)) later

assume_init-map : (slices : List Slice) → assume_init (map some slices) ≡ initialised slices
unfolding assume_init
assume_init-map [] = refl
assume_init-map (s ∷ slices) = rw (assume_init-map slices) refl

slots : ℕ → ℕ → IoSlices
slots n len = after_writes (write_slots 0 (chunks_mut len (len / n) 0 len) (replicate n none))

filled :
    (n len : ℕ)
    → n * (len / n) ≡ len
    → n ≤ len
    → 1 ≤ len / n
    → slots n len ≡ initialised (evenly n (len / n) 0)
unfolding slots
filled n len all enough some_size =
    let cut : chunks_mut len (len / n) 0 len ≡ evenly n (len / n) 0 =
      subst (λ l. chunks_mut len (len / n) 0 l ≡ evenly n (len / n) 0) all
        (chunks_mut-evenly len n (len / n) 0 enough some_size) in
    let chunks = evenly n (len / n) 0 in
    let wrote : write_slots 0 chunks (replicate n none) ≡ some (map some chunks) =
      rw (length-evenly n (len / n) 0) at (write_slots_all [] chunks) in
    rw (cut, wrote) (assume_init-map chunks)

past : (n len : ℕ) → n * (len / n) < len → 1 ≤ len / n → slots n len ≡ undefined
unfolding slots
past n len less some_size =
    let chunks = chunks_mut len (len / n) 0 len in
    let empty : Option Slice = none in
    let many = lt-chunks_mut len n (len / n) 0 len (omega arith) some_size less in
    let end = length-replicate n empty in
    let over : write_slots 0 chunks (replicate n none) ≡ none =
      write_slots_past 0 chunks (replicate n none) (omega (arith, many, end)) (omega arith) in
    rw over refl

too_short : (n len : ℕ) → (n == 0 || len / n == 0) ≡ true → (n ≡ 0) ⊎ (len < n)
too_short zero len h = inl refl
too_short (suc n) len h =
    let none_whole : len / suc n ≡ 0 = ground (arith, h) in
    inr (grind (arith, mod-add-div len (suc n), mod-lt len {m = suc n} (omega arith), none_whole))

-- `iovectors_from_buf` panics where there is no slot, or where the buffer has less bytes than there are
-- slots. Otherwise the slices are just as many as the slots, all of one size and one behind the other
-- from the first byte to the last, if the number of slots divides the length of the buffer; on every
-- other length a slot past the end of the array is written, and the behaviour is undefined.
pub iovectors_from_buf_lem :
    (n len : ℕ)
    → (((n ≡ 0) ⊎ (len < n)) × (iovectors_from_buf n len ≡ refused))
      ⊎ ((1 ≤ n)
          × (n ≤ len)
          × (n * (len / n) ≡ len)
          × (iovectors_from_buf n len ≡ initialised (evenly n (len / n) 0)))
      ⊎ ((1 ≤ n) × (n ≤ len) × (n * (len / n) < len) × (iovectors_from_buf n len ≡ undefined))
unfolding iovectors_from_buf slots
iovectors_from_buf_lem n len = elim (Bool-cases (n == 0 || len / n == 0)) [
  | inl none_fits ↦ inl (too_short n len none_fits, rw none_fits refl)
  | inr fits ↦
      let some_slots : 1 ≤ n = ground (arith, fits) in
      let some_size : 1 ≤ len / n = ground (arith, fits) in
      let whole : len % n + n * (len / n) ≡ len = mod-add-div len n in
      let enough : n ≤ len = grind (arith, some_size, whole) in
      elim (Bool-cases (len % n == 0)) [
        | inl divides ↦
            let all : n * (len / n) ≡ len = ground (arith, whole, divides) in
            inr (inl (some_slots, enough, all, rw fits (filled n len all enough some_size)))
        | inr leaves ↦
            let less : n * (len / n) < len = ground (arith, whole, leaves) in
            inr (inr (some_slots, enough, less, rw fits (past n len less some_size)))
      ]
]
