-- ===== src/Net/Writing.antt =====
-- A write of src/stream.rs makes the log longer by the bodies that it sends.
use async_udx.Prelude.{
  ℕ, suc, ◌+◌, ◌≤◌, ◌<◌, ◌≡◌, refl, sym, subst, inr, inl, List, [], ◌∷◌, ◌++◌, append-nil,
  append_assoc, arith, if-both, ltb, min, u32_mod, add32, add32_lem, add64, length, length-append,
  length-take, length-drop, take, drop, take-add, Option-cases, All, All-append,
}
use async_udx.Constants.{udx_header_data, udx_max_data_size}
use async_udx.Error.{Outcome, ok, err, panic, to_io}
use async_udx.Packet.Types.{deref, is_empty}
use async_udx.Map.{insert}
use async_udx.Stream.Defs.{Stream, create_packet, wake_driver}
use async_udx.Stream.Receive.{Poll, ready, pending}
use async_udx.Stream.Write.{queue_packet, send_data_packet, write_loop, poll_write}
use async_udx.Stream.Writing.Loop.{Done, write_loop-Done}
use async_udx.Stream.Writing.Sent.{reported}
use async_udx.Net.Log.{Log, nth, nth-append_new, joined, joined-append}
use async_udx.Net.Made.{Made-map, create_packet-Made}
use async_udx.Net.Held.{Held, Held-map, remove-Held}
use async_udx.Net.Sender.{Mine, Authored, InLog, InLog-append, create_header-InLog}

abbrev pub Short : Log → Type 0
Short = All (λ body. length body ≤ udx_max_data_size)

-- The log with the bodies of the first `w` bytes of `buf`.
abbrev Wrote : Log → List ℕ → ℕ → Stream → Type 0
Wrote log buf w t =
    (new : Log) × Mine (log ++ new) t
    × (joined new ≡ take w buf)
    × Short new
    × (length new ≤ w)
    × (w ≤ length buf)

-- One more body.
queue_packet-Mine :
    (log : Log) (body : List ℕ) (s : Stream)
    → suc s.seq < u32_mod
    → Mine log s
    → Mine (log ++ body ∷ []) (queue_packet (create_packet s udx_header_data body) s)
unfolding queue_packet wake_driver insert
queue_packet-Mine log body s fits ((queue, out, sent), ((seq, ack, id), at)) = (
  (
    All-append (λ p. Authored (log ++ body ∷ []) (deref p)) s.send_queue _ older.0 (new, tt),
    (new, remove-Held (Authored (log ++ body ∷ [])) _ s.outgoing older.1),
    older.2,
  ),
  ((omega (arith, up, fits), ack, id), omega (arith, up, at, longer)),
)
  where
    longer : length (log ++ body ∷ []) ≡ length log + 1
    longer = length-append log (body ∷ [])

    up : add32 s.seq 1 ≡ s.seq + 1
    up = add32_lem s.seq 1 (omega (arith, fits))

    older : Held (Authored (log ++ body ∷ [])) s
    older = Held-map s (λ p. Made-map p (InLog-append log (body ∷ []))) (queue, out, sent)

    new : Authored (log ++ body ∷ []) (create_packet s udx_header_data body)
    new =
        create_packet-Made (InLog (log ++ body ∷ [])) s udx_header_data body (seq, ack, id)
          (omega arith)
          (create_header-InLog (log ++ body ∷ []) s udx_header_data body (omega arith) (
            inr (
              omega (arith, at, longer),
              sym (
                  subst (λ k. nth (log ++ body ∷ []) k ≡ body) (sym at)
                    (nth-append_new log body [])),
            )))

module _ (log : Log) (buf : List ℕ) (fits : length log + length buf < u32_mod) where
  queue_packet-Wrote :
      (w m : ℕ) (t : Stream)
      → 1 ≤ m
      → m ≤ udx_max_data_size
      → w + m ≤ length buf
      → Wrote log buf w t
      → Wrote log buf
          (w + m)
          (queue_packet (create_packet t udx_header_data (take m (drop w buf))) t)
  queue_packet-Wrote w m t some_left small inside (new, mine, carried, short, few, _) = (
    new ++ body ∷ [],
    subst (λ l. Mine l (queue_packet (create_packet t udx_header_data body) t))
        (append_assoc log new (body ∷ []))
        (queue_packet-Mine (log ++ new) body t
          (omega (arith, mine.1.1, length-append log new, few, fits, inside, some_left)) mine),
    rw (joined-append new (body ∷ []), carried, append-nil) (sym (take-add w m buf)),
    All-append (λ b. length b ≤ udx_max_data_size) new _ short
        (omega (arith, length-take m (drop w buf), small), tt),
    omega (arith, few, length-append new (body ∷ []), some_left),
    inside,
  )
    where
      body : List ℕ
      body = take m (drop w buf)

  send_data_packet-Wrote :
      (w : ℕ) (t : Stream)
      → w < length buf
      → Wrote log buf w t
      → let r = send_data_packet (drop w buf) t in Wrote log buf (w + r.1) r.0
  unfolding send_data_packet
  send_data_packet-Wrote w t more v =
      let m = min (length (drop w buf)) udx_max_data_size in
      let same : w + 0 ≡ w = omega arith in
      let left = length-drop w buf in
      if-both (λ (r : Stream × ℕ). Wrote log buf (w + r.1) r.0) (ltb t.cwnd (add64 t.inflight m))
        (rw same v)
        (queue_packet-Wrote w m t (omega (arith, left)) (omega arith) (omega (arith, left)) v)

abbrev Logged : Log → List ℕ → Stream × Poll (Outcome ℕ) → Type 0
Logged log buf r =
    (new : Log) × Mine (log ++ new) r.0 × (joined new ≡ take (reported r.1) buf) × Short new

Done-Logged :
    (log : Log) (buf : List ℕ) (r : Stream × Poll (Outcome ℕ))
    → Done (Wrote log buf) r
    → Logged log buf r
unfolding reported
Done-Logged log buf (t, ready (ok n)) (new, mine, carried, short, _, _) =
    (new, mine, carried, short)
Done-Logged log buf (t, ready (err e)) d = absurd d
Done-Logged log buf (t, ready panic) d = absurd d
Done-Logged log buf (t, pending) (new, mine, carried, short, _, _) = (new, mine, carried, short)

-- A write makes the log longer by bodies that are together the bytes that it reports.
pub poll_write-Mine :
    (log : Log) (waker : ℕ) (buf : List ℕ) (s : Stream)
    → s.seq + length buf < u32_mod
    → Mine log s
    → Logged log buf (poll_write waker buf s)
unfolding poll_write reported
poll_write-Mine log waker buf s fits v = elim (Option-cases s.error) [
  | inr (e, failed) ↦ rw (failed, poll_write) (nothing_new (ready (err (to_io e))) refl)
  | inl none_yet ↦
      rw (none_yet, poll_write)
        (if-both (Logged log buf) (is_empty buf) (nothing_new (ready (ok 0)) refl) (
          Done-Logged log buf (write_loop (length buf) waker buf 0 s) (
            write_loop-Done (Wrote log buf) waker buf
              (send_data_packet-Wrote log buf (omega (arith, fits, v.1.1))) (λ w t h. h)
              (length buf) 0 s start)))
]
  where
    start : Wrote log buf 0 s
    start = ([], rw append-nil v, refl, tt, omega arith, omega arith)

    nothing_new : (answer : Poll (Outcome ℕ)) → reported answer ≡ 0 → Logged log buf (s, answer)
    nothing_new answer e = ([], rw append-nil v, rw e refl, tt)
