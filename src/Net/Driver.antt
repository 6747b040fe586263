-- ===== src/Net/Driver.antt =====
-- What a stream of src/stream.rs holds stays from the log through everything but a write.
use async_udx.Prelude.{
  All-always, ℕ, zero, suc, ◌<◌, ◌≡◌, some, length, u32_mod, add32-lt, if◌then◌else◌, if-both, leb,
}
use async_udx.Error.{UdxError, closed_by_remote}
use async_udx.Map.{lookup, contains_key, insert}
use async_udx.Packet.Types.{Shared, IncomingPacket}
use async_udx.Stream.State.{close_remote}
use async_udx.Stream.Defs.{Stream, send_state_packet, terminate, wake_driver}
use async_udx.Stream.Ack.{ack_packet}
use async_udx.Stream.Receive.{Incoming, advance, receive_data}
use async_udx.Stream.Timeouts.{flush_packet}
use async_udx.Stream.Transmit.{poll_transmit}
use async_udx.Stream.Drive.{Env, finish, driver_poll}
use async_udx.Stream.Invariant.{Invariant, OnSome, OnOk}
use async_udx.Stream.Invariant.Driver.{driver_poll_keeps}
use async_udx.Net.Log.{Log}
use async_udx.Stream.Invariant.Calls.{
  ack_packet_keeps, mark_packet_keeps, flush_packet_keeps, poll_transmit_keeps, OnSome-both,
  OnOk-both,
}
use async_udx.Net.Held.{
  Held, terminate-Held, send_state_packet-Held, ack_packet-Held, flush_packet-Held,
  poll_transmit-Held, finish-Held,
}
use async_udx.Net.Sender.{Numbered, Mine, Authored, state_packet-Authored}

pub advance_fits : (n : ℕ) (m : Incoming) (ack : ℕ) → ack < u32_mod → advance n m ack < u32_mod
unfolding advance
advance_fits zero m ack h = h
advance_fits (suc n) m ack h =
    if-both (λ a. a < u32_mod) (contains_key ack m) (advance_fits n m _ (add32-lt ack 1)) h

module _ (log : Log) where
  abbrev R : Stream → Type 0
  R = Mine log

  pub terminate-Mine : (x : UdxError) (s : Stream) → Mine log s → Mine log (terminate x s)
  unfolding terminate send_state_packet wake_driver
  terminate-Mine x s (held, numbers) = (
    terminate-Held (Authored log) x s (state_packet-Authored log _ (some x) numbers.0) held,
    numbers,
  )

  remote-R :
      (s : Stream)
      → R s
      → R (terminate closed_by_remote (record s { state = close_remote s.state }))
  remote-R s v = terminate-Mine closed_by_remote (record s { state = close_remote s.state }) v

  ack_packet-R : (now i : ℕ) (s : Stream) → R s → R (ack_packet now i s)
  ack_packet-R now i s (held, numbers) = (
    ack_packet-Held (Authored log) now i s held,
    ack_packet_keeps (Numbered log) now i s (λ out cells inflight timings stats. numbers),
  )

  receive_data-R : (packet : IncomingPacket) (s : Stream) → R s → R (receive_data packet s)
  unfolding receive_data send_state_packet wake_driver
  receive_data-R packet s (held, ((seq, ack, id), at)) =
      let received =
        if leb s.ack packet.header.seq
        then insert packet.header.seq packet s.incoming
        else s.incoming in
      let range : (s.seq < u32_mod)
          × (advance (suc (length received)) received s.ack < u32_mod)
          × (s.remote_id < u32_mod) =
        (seq, advance_fits (suc (length received)) received s.ack ack, id) in
      (
        send_state_packet-Held (Authored log) _ (state_packet-Authored log _ s.error range) held,
        (range, at),
      )

  flush_packet-R :
      (i : ℕ) (p : Shared) (s : Stream)
      → lookup i s.outgoing ≡ some p
      → R s
      → OnSome R (flush_packet p s)
  flush_packet-R i p s e (held, numbers) =
      OnSome-both (Held (Authored log)) (Numbered log) R (flush_packet p s) (λ t h n. (h, n))
        (flush_packet-Held (Authored log) i p s e held)
        (flush_packet_keeps (Numbered log) p s (λ cells inflight queue. numbers))

  poll_transmit-R : (gso : ℕ) (s : Stream) → R s → OnOk R (poll_transmit gso s)
  poll_transmit-R gso s (held, numbers) =
      OnOk-both (Held (Authored log)) (Numbered log) R (poll_transmit gso s) (λ t h n. (h, n))
        (poll_transmit-Held (Authored log) gso s held)
        (poll_transmit_keeps (Numbered log) gso s (λ sent. numbers))

  finish-R : (s : Stream) → R s → R (finish s)
  unfolding finish
  finish-R s (held, numbers) = (finish-Held (Authored log) s held, numbers)

  Mine-Invariant : Invariant (Mine log) (λ _. Unit) (λ _. Unit) Unit
  Mine-Invariant = record {
    below = λ packet i h lt. tt;
    selected = λ packet i h typed. tt;
    awake = λ r w d woken s v. v;
    paced = λ cwnd time s h v. v;
    counted = λ n s h v. v;
    moved = λ ack s h v. v;
    drained = λ s v. v;
    acked = λ now i s a v. ack_packet-R now i s v;
    received = λ packet s h typed v. receive_data-R packet s v;
    ended = terminate-Mine;
    remote = remote-R;
    marked = λ i p s t e v. mark_packet_keeps R p s (λ cells inflight. v);
    flushed = flush_packet-R;
    transmitted = poll_transmit-R;
    finished = finish-R;
  }

  pub driver_poll-Mine : (env : Env) (s : Stream) → Mine log s → Mine log (driver_poll env s).0
  driver_poll-Mine env s v =
      driver_poll_keeps R (λ _. Unit) (λ _. Unit) Unit Mine-Invariant env s (λ _. tt)
        (All-always (λ _. tt) s.recv_rx) v
