-- ===== src/Stream/Delivery/ReadLoop.antt =====
-- The loop of `read_next`: what it delivers, and that it stops only where it has to.
use async_udx.Prelude.{
  ℕ, zero, suc, ◌+◌, ◌-◌, ◌≤◌, ◌<◌, ◌≡◌, sym, ap, ◌∙◌, subst, ◌⊎◌, List, ◌++◌, none, some, take,
  drop, length, length-append, length-take, length-drop, arith, sub64, sub64_lem, Bool-cases,
  Option-cases, inl, inr, ltb, ltb→lt, ltb→le, usize_mod, append-nil, append_assoc,
}
use async_udx.Map.{lookup, remove, insert, length-remove-lt}
use async_udx.Packet.Types.{IncomingPacket}
use async_udx.Stream.Defs.{Stream}
use async_udx.Stream.Receive.{Reader, reader, read_whole, read_part, read_loop, read_next}
use async_udx.Stream.Delivery.Spec.{Delivers}
use async_udx.Stream.Delivery.Reads.{ReaderDelivers, read_whole-Delivers, part-Delivers}

-- The bodies are no longer than a buffer can be.
abbrev pub Bounded : (ℕ → List ℕ) → Type 0
Bounded f = (k : ℕ) → length (f k) < usize_mod

module _ (f : ℕ → List ℕ) (bounded : Bounded f) (ack : ℕ) (out : List ℕ) where
  -- What is left of the packet at the cursor, as the code computes it.
  left_lem :
      (r : Reader) (p : IncomingPacket)
      → ReaderDelivers f ack out r
      → lookup r.read_cursor r.incoming ≡ some p
      → (sub64 (length p.buf) p.read_offset ≡ length p.buf - p.read_offset)
        × (p.read_offset ≤ length p.buf)
  left_lem r p v e =
      let w = v.waits r.read_cursor p e in
      let same = ap length w.body in
      let small : length p.buf < usize_mod = omega (arith, same, bounded r.read_cursor) in
      (
        sub64_lem (length p.buf) p.read_offset (omega (arith, same, w.within)) small,
        omega (arith, same, w.within),
      )

  read_part-Delivers :
      (remaining : ℕ) (r : Reader) (p : IncomingPacket)
      → ReaderDelivers f ack out r
      → lookup r.read_cursor r.incoming ≡ some p
      → p.read_offset + remaining ≤ length p.buf
      → ReaderDelivers f ack out (read_part remaining p r)
  unfolding read_part
  read_part-Delivers remaining r p v e fits =
      rw (all_of_it, ← append_assoc)
        (subst
          (λ k.
            Delivers f (insert k put (remove r.read_cursor r.incoming)) ack r.read_cursor
              ((out ++ r.filled) ++ take remaining (drop p.read_offset p.buf)))
          (sym (v.waits r.read_cursor p e).numbered)
          (part-Delivers f r.incoming ack r.read_cursor remaining (out ++ r.filled) p v e fits))
    where
      put : IncomingPacket
      put = record p { read_offset = p.read_offset + remaining }

      all_of_it : p.read_offset + remaining - p.read_offset ≡ remaining
      all_of_it = omega arith

  -- Whatever the loop does, what has been read is in order and without a gap.
  pub read_loop-Delivers :
      (n remaining : ℕ) (r : Reader)
      → ReaderDelivers f ack out r
      → ReaderDelivers f ack out (read_loop n remaining r)
  unfolding read_loop
  read_loop-Delivers zero remaining r v = v
  read_loop-Delivers (suc n) remaining r v = elim (Option-cases (lookup r.read_cursor r.incoming)) [
    | inl e ↦ rw (e, read_loop) v
    | inr (p, e) ↦ elim (Bool-cases (ltb remaining (sub64 (length p.buf) p.read_offset))) [
      | inl long ↦
          rw (e, read_loop, long)
            (read_part-Delivers remaining r p v e
              (omega (arith, left_lem r p v e, ltb→lt _ _ long)))
      | inr short ↦
          rw (e, read_loop, short)
            (read_loop-Delivers n _ (read_whole p r) (read_whole-Delivers f ack out r p v e))
    ]
  ]

  -- With more rounds than packets the loop ends where the next packet is missing, or where the buffer
  -- is full.
  abbrev pub Ends : ℕ → Reader → Reader → Type 0
  Ends remaining r s = (s.read_cursor ≡ ack) ⊎ (length s.filled ≡ length r.filled + remaining)

  caught_up :
      (r : Reader)
      → ReaderDelivers f ack out r
      → lookup r.read_cursor r.incoming ≡ none
      → r.read_cursor ≡ ack
  caught_up r v e = elim (Bool-cases (ltb r.read_cursor ack)) [
    | inl more ↦
        let (p, here) = v.full r.read_cursor (omega arith) (ltb→lt _ _ more) in
        absurd (clash (sym e ∙ here))
    | inr done ↦ omega (arith, v.behind, ltb→le _ _ done)
  ]
    where
      clash : {p : IncomingPacket} → none ≡ some p → ⊥
      clash h = cc

  filled_part :
      (remaining : ℕ) (r : Reader) (p : IncomingPacket)
      → p.read_offset + remaining ≤ length p.buf
      → length (read_part remaining p r).filled ≡ length r.filled + remaining
  unfolding read_part
  filled_part remaining r p fits = omega (
    arith,
    length-append r.filled
        (take (p.read_offset + remaining - p.read_offset) (drop p.read_offset p.buf)),
    length-take (p.read_offset + remaining - p.read_offset) (drop p.read_offset p.buf),
    length-drop p.read_offset p.buf,
  )

  filled_whole :
      (r : Reader) (p : IncomingPacket)
      → length (read_whole p r).filled ≡ length r.filled + (length p.buf - p.read_offset)
  unfolding read_whole
  filled_whole r p =
      omega
        (arith, length-append r.filled (drop p.read_offset p.buf), length-drop p.read_offset p.buf)

  later :
      (remaining : ℕ) (r s : Reader) (p : IncomingPacket)
      → ReaderDelivers f ack out r
      → lookup r.read_cursor r.incoming ≡ some p
      → sub64 (length p.buf) p.read_offset ≤ remaining
      → Ends (remaining - sub64 (length p.buf) p.read_offset) (read_whole p r) s
      → Ends remaining r s
  later remaining r s p v e short (inl done) = inl done
  later remaining r s p v e short (inr full) =
      inr (omega (arith, full, filled_whole r p, left_lem r p v e))

  pub read_loop-Ends :
      (n remaining : ℕ) (r : Reader)
      → length r.incoming < n
      → ReaderDelivers f ack out r
      → Ends remaining r (read_loop n remaining r)
  unfolding read_loop
  read_loop-Ends zero remaining r h v = elim h [ ]
  read_loop-Ends (suc n) remaining r h v = elim (Option-cases (lookup r.read_cursor r.incoming)) [
    | inl e ↦ rw (e, read_loop) (inl (caught_up r v e))
    | inr (p, e) ↦ elim (Bool-cases (ltb remaining (sub64 (length p.buf) p.read_offset))) [
      | inl long ↦
          rw (e, read_loop, long)
            (inr (filled_part remaining r p (omega (arith, left_lem r p v e, ltb→lt _ _ long))))
      | inr short ↦
          rw (e, read_loop, short)
            (later remaining r
              (read_loop n (remaining - sub64 (length p.buf) p.read_offset) (read_whole p r)) p v e
              (ltb→le _ _ short)
              (read_loop-Ends n _ (read_whole p r) (fewer r p e h)
                (read_whole-Delivers f ack out r p v e)))
    ]
  ]
    where
      fewer :
          (r : Reader) (p : IncomingPacket)
          → lookup r.read_cursor r.incoming ≡ some p
          → length r.incoming < suc n
          → length (read_whole p r).incoming < n
      fewer r p e h =
          unfold read_whole in omega (arith, length-remove-lt r.read_cursor r.incoming p e)

-- A read keeps the receiver's invariant, with the bytes that it put into the buffer behind those read
-- before: what has been read is always a front of what the other side sent, in order. And the read
-- fills the buffer unless it has read everything up to the next packet that is missing.
pub read_next-Delivers :
    (f : ℕ → List ℕ) (remaining : ℕ) (out : List ℕ) (s : Stream)
    → Bounded f
    → Delivers f s.incoming s.ack s.read_cursor out
    → let r = read_next remaining s in
      Delivers f r.incoming s.ack r.read_cursor (out ++ r.filled)
      × ((r.read_cursor ≡ s.ack) ⊎ (length r.filled ≡ remaining))
unfolding read_next
read_next-Delivers f remaining out s bounded v =
    let start : ReaderDelivers f s.ack out (reader s) = rw append-nil v in
    (
      read_loop-Delivers f bounded s.ack out (suc (length s.incoming)) remaining (reader s) start,
      elim (read_loop-Ends f bounded s.ack out (suc (length s.incoming)) remaining (reader s)
          (omega arith) start) [ inl e ↦ inl e | inr e ↦ inr (omega (arith, e)) ],
    )
