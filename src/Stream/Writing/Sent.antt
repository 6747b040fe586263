-- ===== src/Stream/Writing/Sent.antt =====
-- What `poll_write` of src/stream.rs sends of a buffer.
use async_udx.Prelude.{
  ℕ, suc, ◌+◌, ◌≤◌, ◌<◌, ◌≡◌, ◌⊎◌, inl, inr, refl, sym, ap, ◌∙◌, List, [], ◌∷◌, ◌++◌, append-nil,
  append_assoc, none, arith, if-both, ltb, min, u32_mod, add32_lem, add64, length, length-append,
  length-take, length-drop, take, drop, take-add,
}
use async_udx.Constants.{udx_header_size, udx_header_data, udx_max_data_size}
use async_udx.Error.{Outcome, ok, err, panic}
use async_udx.Packet.Types.{PacketRef, Shared, shared, as_slice, packet_seq, is_empty}
use async_udx.Packet.Build.{as_slice-new_packet}
use async_udx.Stream.Defs.{Stream, create_packet, create_header, wake_driver}
use async_udx.Stream.Receive.{Poll, ready, pending}
use async_udx.Stream.Write.{queue_packet, send_data_packet, write_loop, poll_write}
use async_udx.Stream.Inflight.Writes.{packet_seq-create_packet}
use async_udx.Stream.Writing.Loop.{Done, write_loop-Done}

-- What a packet carries behind its header.
abbrev pub body_of : Shared → List ℕ
body_of h = drop udx_header_size (as_slice h.packet.buf)

unfoldable pub bodies : List Shared → List ℕ
bodies [] = []
bodies (h ∷ hs) = body_of h ++ bodies hs

abbrev pub refs : List Shared → List PacketRef
refs [] = []
refs (h ∷ hs) = shared h ∷ refs hs

-- Packets with consecutive numbers from `n` on, none of them empty or too large.
unfoldable pub Numbered : ℕ → List Shared → Type 0
Numbered n [] = Unit
Numbered n (h ∷ hs) =
    (packet_seq h.packet ≡ n)
    × (1 ≤ length (body_of h))
    × (length (body_of h) ≤ udx_max_data_size)
    × Numbered (suc n) hs

-- The packets by which `t` is ahead of `s`: they stand at the end of the send queue, they are numbered
-- on from `seq`, and they carry the first `w` bytes of `buf`.
abbrev pub Sent : List ℕ → Stream → ℕ → Stream → Type 0
Sent buf s w t =
    (hs : List Shared) × (t.send_queue ≡ s.send_queue ++ refs hs)
    × (bodies hs ≡ take w buf)
    × Numbered s.seq hs
    × (t.seq ≡ s.seq + length hs)
    × (length hs ≤ w)
    × (w ≤ length buf)

refs-append : (xs ys : List Shared) → refs (xs ++ ys) ≡ refs xs ++ refs ys
refs-append [] ys = refl
refs-append (x ∷ xs) ys = ap (◌∷◌ (shared x)) (refs-append xs ys)

bodies-append : (xs ys : List Shared) → bodies (xs ++ ys) ≡ bodies xs ++ bodies ys
unfolding bodies
bodies-append [] ys = refl
bodies-append (x ∷ xs) ys = rw (bodies-append xs ys, append_assoc)

Numbered-append :
    (n : ℕ) (hs : List Shared) (h : Shared)
    → Numbered n hs
    → packet_seq h.packet ≡ n + length hs
    → 1 ≤ length (body_of h)
    → length (body_of h) ≤ udx_max_data_size
    → Numbered n (hs ++ h ∷ [])
unfolding Numbered
Numbered-append n [] h v e lo hi = (omega (arith, e), lo, hi, tt)
Numbered-append n (x ∷ hs) h v e lo hi =
    (v.0, v.1, v.2, Numbered-append (suc n) hs h v.3 (omega (arith, e)) lo hi)

body_of-create_packet :
    (s : Stream) (cell : ℕ) (body : List ℕ)
    → body_of (record { cell = cell; packet = create_packet s udx_header_data body }) ≡ body
unfolding create_packet
body_of-create_packet s cell body =
    rw (as_slice-new_packet s.remote_addr (create_header s udx_header_data) body) refl

module _ (buf : List ℕ) (s : Stream) (fits : s.seq + length buf < u32_mod) where
  -- One more packet, with the next `m` bytes.
  queue_packet-Sent :
      (w m : ℕ) (t : Stream)
      → 1 ≤ m
      → m ≤ udx_max_data_size
      → w + m ≤ length buf
      → Sent buf s w t
      → Sent buf s (w + m) (queue_packet (create_packet t udx_header_data (take m (drop w buf))) t)
  unfolding queue_packet wake_driver bodies
  queue_packet-Sent w m t some_left small inside (hs, queue, carried, numbered, at, few, _) = (
    hs ++ handle ∷ [],
    rw (refs-append hs (handle ∷ []), ← append_assoc, ← queue) refl,
    rw
        (
          bodies-append hs (handle ∷ []),
          carried,
          append-nil,
          body_of-create_packet t t.next_cell body,
        )
        (sym (take-add w m buf)),
    Numbered-append s.seq hs handle numbered (packet_seq-create_packet t udx_header_data body ∙ at)
        (omega (arith, long, some_left)) (omega (arith, long, small)),
    omega (arith, add32_lem t.seq 1 (omega (arith, at, few, fits)), at, count),
    omega (arith, few, count),
    inside,
  )
    where
      body : List ℕ
      body = take m (drop w buf)

      handle : Shared
      handle = record { cell = t.next_cell; packet = create_packet t udx_header_data body }

      count : length (hs ++ handle ∷ []) ≡ length hs + 1
      count = length-append hs (handle ∷ [])

      long : length (body_of handle) ≡ m
      long = omega (
        arith,
        ap length (body_of-create_packet t t.next_cell body),
        length-take m (drop w buf),
        length-drop w buf,
      )

  send_data_packet-Sent :
      (w : ℕ) (t : Stream)
      → w < length buf
      → Sent buf s w t
      → let r = send_data_packet (drop w buf) t in Sent buf s (w + r.1) r.0
  unfolding send_data_packet
  send_data_packet-Sent w t more v =
      let m = min (length (drop w buf)) udx_max_data_size in
      let same : w + 0 ≡ w = omega arith in
      let left = length-drop w buf in
      if-both (λ (r : Stream × ℕ). Sent buf s (w + r.1) r.0) (ltb t.cwnd (add64 t.inflight m))
        (rw same v)
        (queue_packet-Sent w m t (omega (arith, left)) (omega arith) (omega (arith, left)) v)

-- The number of bytes that an answer reports.
unfoldable pub reported : Poll (Outcome ℕ) → ℕ
reported (ready (ok n)) = n
reported _ = 0

Done-Sent :
    (buf : List ℕ) (s : Stream) (r : Stream × Poll (Outcome ℕ))
    → Done (Sent buf s) r
    → ((r.1 ≡ pending) ⊎ (r.1 ≡ ready (ok (reported r.1)))) × Sent buf s (reported r.1) r.0
unfolding reported
Done-Sent buf s (t, ready (ok n)) d = (inr refl, d)
Done-Sent buf s (t, ready (err e)) d = absurd d
Done-Sent buf s (t, ready panic) d = absurd d
Done-Sent buf s (t, pending) d = (inl refl, d)

-- A write on a stream without an error never fails. What it has put at the end of the send queue are
-- packets of 1 to 1380 bytes, numbered on from `seq`, that together carry the front of the buffer whose
-- length it answers; where it waits, it has sent nothing. The sequence numbers are taken not to wrap.
pub poll_write-Sent :
    (waker : ℕ) (buf : List ℕ) (s : Stream)
    → s.seq + length buf < u32_mod
    → s.error ≡ none
    → let r = poll_write waker buf s in
      ((r.1 ≡ pending) ⊎ (r.1 ≡ ready (ok (reported r.1)))) × Sent buf s (reported r.1) r.0
unfolding poll_write
poll_write-Sent waker buf s fits none_yet =
    rw (none_yet, poll_write)
      (if-both
        (λ (r : Stream × Poll (Outcome ℕ)).
          ((r.1 ≡ pending) ⊎ (r.1 ≡ ready (ok (reported r.1)))) × Sent buf s (reported r.1) r.0)
        (is_empty buf) (Done-Sent buf s (s, ready (ok 0)) nothing)
        (Done-Sent buf s (write_loop (length buf) waker buf 0 s) (
          write_loop-Done (Sent buf s) waker buf (send_data_packet-Sent buf s fits) (λ w t v. v)
            (length buf) 0 s nothing)))
  where
    nothing : Sent buf s 0 s
    nothing =
        unfold bodies Numbered in
        ([], sym (append-nil s.send_queue), refl, tt, omega arith, omega arith, omega arith)
