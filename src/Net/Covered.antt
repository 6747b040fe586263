-- ===== src/Net/Covered.antt =====
-- A stream of src/stream.rs lets go of a packet only once it is acknowledged.
use async_udx.Prelude.{
  ℕ, ◌≤◌, ◌<◌, ◌≡◌, sym, ap, ◌∙◌, List, Option-cases, inl, inr, none, true, true-false, not, ◌==◌,
  bit_and, All-map, arith, if-both, All, add32,
}
use async_udx.Constants.{udx_header_sack}
use async_udx.Error.{UdxError, closed_by_remote}
use async_udx.Map.{lookup, remove, insert, lookup-remove, lookup-insert}
use async_udx.Packet.Types.{Shared, IncomingPacket, has_type, new_packet}
use async_udx.Socket.Events.{EventIncoming, packet_event}
use async_udx.Stream.State.{close_remote}
use async_udx.Stream.Defs.{
  Stream, create_packet, create_header, send_state_packet, terminate, wake_driver,
}
use async_udx.Stream.Ack.{ack_packet, handle_remote_ack_for_packet}
use async_udx.Stream.Receive.{receive_data}
use async_udx.Stream.Write.{queue_packet, send_data_packet, poll_write}
use async_udx.Stream.Drive.{Env, finish, driver_poll}
use async_udx.Stream.Invariant.{Invariant}
use async_udx.Stream.Invariant.Driver.{driver_poll_keeps}
use async_udx.Stream.Invariant.Calls.{
  mark_packet_keeps, flush_packet_keeps, poll_transmit_keeps, poll_write_keeps,
}

-- A message that acknowledges what is before `n` at most, all of it from the front on.
abbrev pub EventUpTo : ℕ → EventIncoming → Type 0
EventUpTo n (packet_event p) = (p.header.ack ≤ n) × (bit_and p.header.typ udx_header_sack ≡ 0)

-- What was sent and is not before `n` is still in `outgoing`, and the messages that wait keep it there.
abbrev pub Covered : ℕ → Stream → Type 0
Covered n s =
    ((k : ℕ) → k < s.seq → lookup k s.outgoing ≡ none → k < n) × All (EventUpTo n) s.recv_rx

module _ (n : ℕ) where
  abbrev R : Stream → Type 0
  R = Covered n

  pub terminate-Covered : (x : UdxError) (s : Stream) → Covered n s → Covered n (terminate x s)
  unfolding terminate send_state_packet wake_driver
  terminate-Covered x s v = v

  remote-R :
      (s : Stream)
      → R s
      → R (terminate closed_by_remote (record s { state = close_remote s.state }))
  remote-R s v = terminate-Covered closed_by_remote (record s { state = close_remote s.state }) v

  removed :
      (i k : ℕ) (out : List (ℕ × Shared))
      → i < n
      → (lookup k out ≡ none → k < n)
      → lookup k (remove i out) ≡ none
      → k < n
  removed i k out acked old e = ground (arith, lookup-remove i k out, old)

  ack_packet-R : (now i : ℕ) (s : Stream) → i < n → R s → R (ack_packet now i s)
  unfolding ack_packet handle_remote_ack_for_packet
  ack_packet-R now i s acked (old, rx) = elim (Option-cases (lookup i s.outgoing)) [
    | inl e ↦ rw (e, ack_packet) (λ k sent. removed i k s.outgoing acked (old k sent), rx)
    | inr (p, e) ↦ rw (e, ack_packet) (λ k sent. removed i k s.outgoing acked (old k sent), rx)
  ]

  receive_data-R : (packet : IncomingPacket) (s : Stream) → R s → R (receive_data packet s)
  unfolding receive_data send_state_packet wake_driver
  receive_data-R packet s v = v

  finish-R : (s : Stream) → R s → R (finish s)
  unfolding finish
  finish-R s v = v

  not_selected :
      (packet : IncomingPacket)
      → bit_and packet.header.typ udx_header_sack ≡ 0
      → has_type packet udx_header_sack ≡ true
      → ⊥
  unfolding has_type
  not_selected packet e typed = true-false (sym typed ∙ ap (λ b. not (b == 0)) e)

  Covered-Invariant : Invariant (Covered n) (EventUpTo n) (λ i. i < n) Unit
  Covered-Invariant = record {
    below = λ packet i h lt. omega (arith, h.0, lt);
    selected = λ packet i h typed. absurd (not_selected packet h.1 typed);
    awake = λ r w d woken s v. v;
    paced = λ cwnd time s h v. v;
    counted = λ n s h v. v;
    moved = λ ack s h v. v;
    drained = λ s v. (v.0, tt);
    acked = ack_packet-R;
    received = λ packet s h typed v. receive_data-R packet s v;
    ended = terminate-Covered;
    remote = remote-R;
    marked = λ i p s t e v. mark_packet_keeps R p s (λ cells inflight. v);
    flushed = λ i p s e v. flush_packet_keeps R p s (λ cells inflight queue. v);
    transmitted = λ gso s v. poll_transmit_keeps R gso s (λ sent. v);
    finished = finish-R;
  }

  pub driver_poll-Covered : (env : Env) (s : Stream) → Covered n s → Covered n (driver_poll env s).0
  driver_poll-Covered env s v =
      driver_poll_keeps R (EventUpTo n) (λ i. i < n) Unit Covered-Invariant env s (λ _. tt) v.1 v

  added :
      (k seq : ℕ) (p : Shared) (out : List (ℕ × Shared))
      → k < add32 seq 1
      → (k < seq → lookup k out ≡ none → k < n)
      → lookup k (insert seq p out) ≡ none
      → k < n
  unfolding add32
  added k seq p out sent old e = ground (arith, lookup-insert seq k p out, old)

  queue_packet-R : (body : List ℕ) (s : Stream) → R s → R (queue_packet (create_packet s 1 body) s)
  unfolding queue_packet wake_driver create_packet create_header new_packet
  queue_packet-R body s (old, rx) = (λ k sent e. added k s.seq _ s.outgoing sent (old k) e, rx)

  send_data_packet-R : (buf : List ℕ) (s : Stream) → R s → R (send_data_packet buf s).0
  unfolding send_data_packet
  send_data_packet-R buf s v = if-both (λ (r : Stream × ℕ). R r.0) _ v (queue_packet-R _ s v)

  pub poll_write-Covered :
      (waker : ℕ) (buf : List ℕ) (s : Stream) → Covered n s → Covered n (poll_write waker buf s).0
  poll_write-Covered waker buf s v = poll_write_keeps R waker buf s send_data_packet-R (λ t w. w) v

pub Covered-mono : {m n : ℕ} (s : Stream) → m ≤ n → Covered m s → Covered n s
Covered-mono s le (old, rx) =
    (λ k sent e. omega (arith, le, old k sent e), All-map s.recv_rx (EventUpTo-mono le) rx)
  where
    EventUpTo-mono : {m n : ℕ} → m ≤ n → (e : EventIncoming) → EventUpTo m e → EventUpTo n e
    EventUpTo-mono le (packet_event p) (ack, typ) = (omega (arith, le, ack), typ)
