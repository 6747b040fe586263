-- ===== src/Stream/Invariant/Calls.antt =====
-- The rule for invariants of a stream of src/stream.rs, for its calls and for `poll_transmit`.
use async_udx.Prelude.{
  add64, ltb, not, [], ℕ, ◌++◌, List, Option, Option-cases, none, some, inl, inr, if-both, length,
}
use async_udx.Error.{UdxError, Outcome, ok, err, panic}
use async_udx.Packet.Types.{is_empty, Shared, Cells, PacketRef, packet_len}
use async_udx.Socket.Events.{EventOutgoing}
use async_udx.Stream.Defs.{Stream, Timings, StreamStats}
use async_udx.Map.{lookup}
use async_udx.Stream.Ack.{ack_packet, handle_remote_ack_for_packet}
use async_udx.Stream.Receive.{poll_read, read_next, answer, left_by, Poll}
use async_udx.Constants.{udx_max_transmits}
use async_udx.Stream.Timeouts.{mark_packet, flush_packet}
use async_udx.Stream.Transmit.{poll_transmit, Batch, batch_loop, empty_batch, ◌>>=◌}
use async_udx.Stream.Write.{send_data_packet, write_loop, poll_write}
use async_udx.Stream.Writing.Loop.{Done-fst, write_loop-Done}
use async_udx.Stream.Invariant.{OnOk, OnSome}

module _ (R : Stream → Type 0) where
  -- What is kept by an empty queue and more messages.
  pub poll_transmit_keeps :
      (gso : ℕ) (s : Stream)
      → ((sent : List EventOutgoing)
          → R (record s { send_queue = []; send_tx = s.send_tx ++ sent }))
      → OnOk R (poll_transmit gso s)
  unfolding poll_transmit
  poll_transmit_keeps gso s left =
      go _ (batch_loop _ s.send_open s.remote_addr s.send_queue empty_batch) (λ b. left _)
    where
      go :
          (t : Batch → Stream) (o : Outcome Batch)
          → ((b : Batch) → R (t b))
          → OnOk R (o >>= λ b. ok (t b))
      go t (ok b) w = w b
      go t (err e) w = tt
      go t panic w = tt

  -- What is kept by other packets in `outgoing`, and by other atomics, counters and timings.
  pub ack_packet_keeps :
      (now i : ℕ) (s : Stream)
      → ((out : List (ℕ × Shared)) (cells : Cells) (inflight : ℕ) (timings : Timings)
            (stats : StreamStats)
          → R (record s {
            outgoing = out;
            cells = cells;
            inflight = inflight;
            timings = timings;
            stats = stats;
          }))
      → R (ack_packet now i s)
  unfolding ack_packet handle_remote_ack_for_packet
  ack_packet_keeps now i s left = elim (Option-cases (lookup i s.outgoing)) [
    | inl e ↦ rw (e, ack_packet) (left _ s.cells s.inflight s.timings s.stats)
    | inr (p, e) ↦ rw (e, ack_packet) (left _ _ _ _ _)
  ]

  -- What is kept by other atomics and another `inflight`, and by more packets in the queue.
  pub mark_packet_keeps :
      (p : Shared) (s : Stream)
      → ((cells : Cells) (inflight : ℕ) → R (record s { cells = cells; inflight = inflight }))
      → OnSome R (mark_packet p s)
  unfolding mark_packet
  mark_packet_keeps p s left =
      if-both (OnSome R) (s.cells p.cell).waiting (left s.cells s.inflight)
        (if-both (OnSome R) (ltb udx_max_transmits (s.cells p.cell).transmits) tt (left _ _))

  pub flush_packet_keeps :
      (p : Shared) (s : Stream)
      → ((cells : Cells) (inflight : ℕ) (queue : List PacketRef)
          → R (record s { cells = cells; inflight = inflight; send_queue = queue }))
      → OnSome R (flush_packet p s)
  unfolding flush_packet
  flush_packet_keeps p s left =
      if-both (OnSome R) (not (s.cells p.cell).waiting) (left s.cells s.inflight s.send_queue)
        (if-both (OnSome R) (ltb s.cwnd (add64 s.inflight (packet_len p.packet))) tt (left _ _ _))

  -- What every packet keeps, and the waker that is left.
  pub poll_write_keeps :
      (waker : ℕ) (buf : List ℕ) (s : Stream)
      → ((buf : List ℕ) (s : Stream) → R s → R (send_data_packet buf s).0)
      → ((s : Stream) → R s → R (record s { write_waker = some waker }))
      → R s
      → R (poll_write waker buf s).0
  unfolding poll_write
  poll_write_keeps waker buf s round sleep v = elim (Option-cases s.error) [
    | inr (e, failed) ↦ rw (failed, poll_write) v
    | inl none_yet ↦
        rw (none_yet, poll_write)
          (if-both (λ (r : Stream × Poll (Outcome ℕ)). R r.0) (is_empty buf) v
            (Done-fst (λ _. R) R (write_loop (length buf) waker buf 0 s) (λ _ t r. r)
              (write_loop-Done (λ _. R) waker buf (λ w t _. round _ t) (λ w t r. sleep t r)
                (length buf) 0 s v)))
  ]

  -- What is kept by what a read leaves, and by the waker.
  pub poll_read_keeps :
      (waker remaining : ℕ) (s : Stream)
      → ((w : Option ℕ) → R (record (left_by (read_next remaining s) s) { read_waker = w }))
      → R (poll_read waker remaining s).0
  unfolding poll_read
  poll_read_keeps waker remaining s left =
      if-both (λ (r : Stream × Poll (Outcome (Unit {0}))). R r.0) (read_next remaining s).did_read
        (left s.read_waker) (answered s.error)
    where
      answered : (e : Option UdxError) → R (answer e (left_by (read_next remaining s) s) waker).0
      answered none = left (some waker)
      answered (some e) = left s.read_waker

-- Two things that hold of a stream that there may be.
pub OnSome-both :
    (P Q R : Stream → Type 0) (o : Option Stream)
    → ((s : Stream) → P s → Q s → R s)
    → OnSome P o
    → OnSome Q o
    → OnSome R o
OnSome-both P Q R none f p q = tt
OnSome-both P Q R (some s) f p q = f s p q

pub OnOk-both :
    (P Q R : Stream → Type 0) (o : Outcome Stream)
    → ((s : Stream) → P s → Q s → R s)
    → OnOk P o
    → OnOk Q o
    → OnOk R o
OnOk-both P Q R (ok s) f p q = f s p q
OnOk-both P Q R (err e) f p q = tt
OnOk-both P Q R panic f p q = tt
