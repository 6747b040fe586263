-- ===== src/Net/Complete.antt =====
-- All that was written arrives, as far as the network lets it.
use async_udx.Prelude.{
  length, ap, leb→le, leb→lt, ℕ, ◌≤◌, ◌<◌, ◌≡◌, ◌⊎◌, inl, inr, refl, List, [], ◌++◌, none, some,
  Bool-cases, ltb, ltb→lt, ltb→le, arith, leb, u32_mod,
}
use async_udx.Map.{lookup}
use async_udx.Packet.Types.{Transmit, IncomingPacket}
use async_udx.Stream.Defs.{Stream, connect}
use async_udx.Stream.Run.{read}
use async_udx.Stream.Invariant.Calls.{poll_read_keeps}
use async_udx.Stream.Delivery.Steps.{Receives}
use async_udx.Stream.Delivery.Whole.{connect-Receives, output}
use async_udx.Stream.Delivery.ReadLoop.{Bounded, read_next-Delivers}
use async_udx.Stream.Receive.{poll_read, read_next}
use async_udx.Net.Answering.{Inner}
use async_udx.Net.Covered.{Covered}
use async_udx.Net.Delivered.{connect-Mine, Net-Receives, Net-prefix}
use async_udx.Net.Duplex.{Duplex, acting, Duplex-Net}
use async_udx.Net.Lossless.{Duplex-Answered, connect-Covered, connect-Acking}

module _ (now dest remote_id local_id now2 dest2 remote_id2 local_id2 : ℕ)
    {there back : List Transmit} {written got : List ℕ} {a b : Stream} (id : remote_id < u32_mod)
    (id2 : remote_id2 < u32_mod)
    (run : Duplex
      (connect now dest remote_id local_id)
      (connect now2 dest2 remote_id2 local_id2)
      there
      back
      written
      got
      a
      b) where
  abbrev a0 : Stream
  a0 = connect now dest remote_id local_id

  abbrev b0 : Stream
  b0 = connect now2 dest2 remote_id2 local_id2

  run-Receives : (f : ℕ → List ℕ) × Bounded f × Receives f got b
  run-Receives =
      Net-Receives a0 b0 (connect-Mine now dest remote_id local_id id)
        (λ f. connect-Receives f now2 dest2 remote_id2 local_id2) (Duplex-Net a0 b0 run)

  run-Covered : Covered b.ack a
  run-Covered =
      (Duplex-Answered a0 b0 (connect-Mine now dest remote_id local_id id)
        (λ f. connect-Receives f now2 dest2 remote_id2 local_id2)
        (connect-Covered _ now dest remote_id local_id)
        (connect-Acking now2 dest2 remote_id2 local_id2 id2) run).0

all-lt : (m n : ℕ) → ((k : ℕ) → k < m → k < n) → m ≤ n
all-lt m n h = elim (Bool-cases (leb m n)) [
  | inl le ↦ leb→le _ _ le
  | inr more ↦ absurd (omega (arith, h n (leb→lt _ _ more)))
]

-- Whatever the network loses, repeats and reorders between two new streams, each of which gets from the
-- other's socket only what the other has sent: a packet that was written and is no longer kept to be sent
-- again has reached the reader's stream. It is before the reader's cursor, or it waits there to be read.
-- The sequence numbers do not wrap around, and both streams send to ids below 2 ^ 32.
pub Duplex-arrived :
    (now dest remote_id local_id now2 dest2 remote_id2 local_id2 k : ℕ) (there back : List Transmit)
    (written got : List ℕ) (a b : Stream)
    → remote_id < u32_mod
    → remote_id2 < u32_mod
    → Duplex
        (connect now dest remote_id local_id)
        (connect now2 dest2 remote_id2 local_id2)
        there
        back
        written
        got
        a
        b
    → k < a.seq
    → lookup k a.outgoing ≡ none
    → (k < b.read_cursor) ⊎ ((p : IncomingPacket) × (lookup k b.incoming ≡ some p))
Duplex-arrived now dest remote_id local_id now2 dest2 remote_id2 local_id2 k there back written got
      a b id id2 run sent gone =
    let (f, bounded, receives) =
      run-Receives now dest remote_id local_id now2 dest2 remote_id2 local_id2 id id2 run in
    let acked =
      (run-Covered now dest remote_id local_id now2 dest2 remote_id2 local_id2 id id2 run).0 k sent
        gone in
    elim (Bool-cases (ltb k b.read_cursor)) [
      | inl before ↦ inl (ltb→lt _ _ before)
      | inr behind ↦ inr (receives.0.full k (ltb→le _ _ behind) acked)
    ]

-- Whatever the network loses, repeats and reorders between two new streams, each of which gets from the
-- other's socket only what the other has sent: once nothing of what was written is kept any more to be
-- sent again, a read fills its buffer, or what it puts there completes what was written: all of it has
-- then been read. The sequence numbers do not wrap around, and both streams send to ids below 2 ^ 32.
pub Duplex-complete :
    (now dest remote_id local_id now2 dest2 remote_id2 local_id2 waker remaining : ℕ)
    (there back : List Transmit) (written got : List ℕ) (a b : Stream)
    → remote_id < u32_mod
    → remote_id2 < u32_mod
    → Duplex
        (connect now dest remote_id local_id)
        (connect now2 dest2 remote_id2 local_id2)
        there
        back
        written
        got
        a
        b
    → a.outgoing ≡ []
    → let filled = (poll_read waker remaining b).1 in
      (got ++ filled ≡ written) ⊎ (length filled ≡ remaining)
unfolding Inner output lookup poll_read
Duplex-complete now dest remote_id local_id now2 dest2 remote_id2 local_id2 waker remaining there
      back written got a b id id2 run empty =
    let (f, bounded, receives) =
      run-Receives now dest remote_id local_id now2 dest2 remote_id2 local_id2 id id2 run in
    let cov = run-Covered now dest remote_id local_id now2 dest2 remote_id2 local_id2 id id2 run in
    let cursor =
      poll_read_keeps (λ t. t.read_cursor ≡ (read_next remaining b).read_cursor) waker remaining b
        (λ w. refl) in
    let past = all-lt a.seq b.ack (λ k sent. cov.0 k sent (ap (lookup k) empty)) in
    elim (read_next-Delivers f remaining got b bounded receives.0).1 [
      | inr full ↦ inr full
      | inl at_ack ↦ inl (
          (Net-prefix now dest remote_id local_id now2 dest2 remote_id2 local_id2 there written _ a
              (poll_read waker remaining b).0 id
              (Duplex-Net _ _ (acting run (read waker remaining b) tt))).1
            (omega (arith, past, at_ack, cursor)))
    ]
