-- ===== src/Stream/Reading.antt =====
-- What a read of src/stream.rs answers, on every branch.
use async_udx.Prelude.{
  ℕ, zero, suc, ◌+◌, ◌-◌, ◌≤◌, ◌<◌, ◌≡◌, ◌⊎◌, inl, inr, refl, sym, subst, ◌∙◌, List, [], ◌++◌,
  append-nil, append_assoc, Option, none, some, true, ltb, ltb→lt, ltb→le, length, drop, sub64,
  Bool-cases, Option-cases,
}
use async_udx.Error.{UdxError, Outcome, ok, err, to_io}
use async_udx.Map.{lookup}
use async_udx.Packet.Bytes.{slice}
use async_udx.Packet.Types.{IncomingPacket}
use async_udx.Stream.Defs.{Stream}
use async_udx.Stream.Receive.{
  Reader, reader, read_part, read_whole, read_loop, read_next, read_result, answer, left_by, Poll,
  ready, pending, poll_read,
}

-- A loop that has read a packet says so, and adds to what it has put.
abbrev Extends : Reader → Reader → Type 0
Extends r t = (t.did_read ≡ true) × ((rest : List ℕ) × (t.filled ≡ r.filled ++ rest))

read_loop-Extends :
    (n remaining : ℕ) (r : Reader) → r.did_read ≡ true → Extends r (read_loop n remaining r)
unfolding read_loop read_part read_whole
read_loop-Extends zero remaining r e = (e, ([], sym (append-nil r.filled)))
read_loop-Extends (suc n) remaining r e = elim (Option-cases (lookup r.read_cursor r.incoming)) [
  | inl gone ↦ rw (gone, read_loop) (e, ([], sym (append-nil r.filled)))
  | inr (p, here) ↦ elim (Bool-cases (ltb remaining (sub64 (length p.buf) p.read_offset))) [
    | inl long ↦
        rw (here, read_loop, long)
          (e, (slice p.read_offset (p.read_offset + remaining) p.buf, refl))
    | inr short ↦
        rw (here, read_loop, short)
          (let (done, (rest, more)) =
              read_loop-Extends n (remaining - sub64 (length p.buf) p.read_offset) (read_whole p r)
                refl in
            (
              done,
              (
                drop p.read_offset p.buf ++ rest,
                more ∙ append_assoc r.filled (drop p.read_offset p.buf) rest,
              ),
            ))
  ]
]

-- What the first round of a read does.
abbrev First : ℕ → Stream → Reader → Type 0
First remaining s t =
    ((lookup s.read_cursor s.incoming ≡ none) × (t ≡ reader s))
    ⊎ ((p : IncomingPacket) × (lookup s.read_cursor s.incoming ≡ some p)
        × (((remaining < sub64 (length p.buf) p.read_offset)
              × (t ≡ read_part remaining p (reader s)))
            ⊎ ((sub64 (length p.buf) p.read_offset ≤ remaining)
                × Extends (read_whole p (reader s)) t)))

whole_read : (p : IncomingPacket) (r : Reader) → (read_whole p r).did_read ≡ true
unfolding read_whole
whole_read p r = refl

read_next-First : (remaining : ℕ) (s : Stream) → First remaining s (read_next remaining s)
unfolding read_next read_loop
read_next-First remaining s = elim (Option-cases (lookup s.read_cursor s.incoming)) [
  | inl gone ↦ rw (gone, read_loop) (inl (refl, refl))
  | inr (p, here) ↦ elim (Bool-cases (ltb remaining (sub64 (length p.buf) p.read_offset))) [
    | inl long ↦ rw (here, read_loop, long) (inr (p, refl, inl (ltb→lt _ _ long, refl)))
    | inr short ↦
        rw (here, read_loop, short)
          (inr (
            p,
            refl,
            inr (
              ltb→le _ _ short,
              read_loop-Extends (length s.incoming) (remaining - sub64 (length p.buf) p.read_offset)
                  (read_whole p (reader s)) (whole_read p (reader s)),
            ),
          ))
  ]
]

-- The stream's error, or a wait that leaves the waker.
abbrev pub Unread : ℕ → Stream → Stream × List ℕ × Poll (Outcome (Unit {0})) → Type 0
Unread waker s r =
    ((e : UdxError) × (s.error ≡ some e) × (r.2 ≡ ready (err (to_io e))))
    ⊎ ((s.error ≡ none) × (r.2 ≡ pending) × (r.0.read_waker ≡ some waker))

answer-Unread :
    (waker : ℕ) (s t : Stream) (filled : List ℕ) (e : Option UdxError)
    → s.error ≡ e
    → let (u, result) = answer e t waker in Unread waker s (u, filled, result)
answer-Unread waker s t filled none e = inr (e, refl, refl)
answer-Unread waker s t filled (some x) e = inl (x, e, refl)

-- How `poll_read` goes on from what `read_next` has done.
abbrev answered : ℕ → Stream → Reader → Stream × List ℕ × Poll (Outcome (Unit {0}))
answered waker s t = let (u, result) = read_result t (left_by t s) waker in (u, t.filled, result)

abbrev Answer : ℕ → ℕ → Stream → Stream × List ℕ × Poll (Outcome (Unit {0})) → Type 0
Answer waker remaining s r =
    ((lookup s.read_cursor s.incoming ≡ none) × (r.1 ≡ []) × Unread waker s r)
    ⊎ ((p : IncomingPacket) × (lookup s.read_cursor s.incoming ≡ some p)
        × (((remaining < sub64 (length p.buf) p.read_offset)
              × (r.1 ≡ slice p.read_offset (p.read_offset + remaining) p.buf)
              × Unread waker s r)
            ⊎ ((sub64 (length p.buf) p.read_offset ≤ remaining)
                × (r.2 ≡ ready (ok tt))
                × ((rest : List ℕ) × (r.1 ≡ drop p.read_offset p.buf ++ rest)))))

answered_lem :
    (waker remaining : ℕ) (s : Stream) (t : Reader)
    → First remaining s t
    → Answer waker remaining s (answered waker s t)
unfolding read_part read_whole
answered_lem waker remaining s t (inl (gone, e)) =
    subst (λ t. Answer waker remaining s (answered waker s t)) (sym e)
      (inl (gone, refl, answer-Unread waker s (left_by (reader s) s) [] s.error refl))
answered_lem waker remaining s t (inr (p, here, inl (long, e))) =
    subst (λ t. Answer waker remaining s (answered waker s t)) (sym e)
      (inr (
        p,
        here,
        inl (
          long,
          refl,
          answer-Unread waker s (left_by (read_part remaining p (reader s)) s)
              (slice p.read_offset (p.read_offset + remaining) p.buf) s.error refl,
        ),
      ))
answered_lem waker remaining s t (inr (p, here, inr (short, (done, (rest, more))))) =
    inr (p, here, inr (short, rw done refl, (rest, more)))

-- A read puts nothing where the next packet is not there. Where that packet is longer than what is left
-- of the buffer, it fills the buffer with the packet's front. In both cases it answers the stream's
-- error, or waits with its waker left. Where the packet fits, it puts all that is left of it first, and
-- answers that it has read.
pub poll_read_answer :
    (waker remaining : ℕ) (s : Stream)
    → let r = poll_read waker remaining s in
      ((lookup s.read_cursor s.incoming ≡ none) × (r.1 ≡ []) × Unread waker s r)
      ⊎ ((p : IncomingPacket) × (lookup s.read_cursor s.incoming ≡ some p)
          × (((remaining < sub64 (length p.buf) p.read_offset)
                × (r.1 ≡ slice p.read_offset (p.read_offset + remaining) p.buf)
                × Unread waker s r)
              ⊎ ((sub64 (length p.buf) p.read_offset ≤ remaining)
                  × (r.2 ≡ ready (ok tt))
                  × ((rest : List ℕ) × (r.1 ≡ drop p.read_offset p.buf ++ rest)))))
unfolding poll_read
poll_read_answer waker remaining s =
    answered_lem waker remaining s (read_next remaining s) (read_next-First remaining s)
