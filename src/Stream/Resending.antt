-- ===== src/Stream/Resending.antt =====
-- What the driver of a stream of src/stream.rs sends when its timer fires.
pub mod Unchanged
pub mod Waiting
use async_udx.Prelude.{
  ◌+◌, ◌*◌, ◌<◌, ℕ, ◌-◌, ◌≤◌, ◌<◌, ◌≡◌, ◌⊎◌, inl, inr, refl, ap, ◌∙◌, List, ◌∷◌, ◌++◌, none, some,
  true, false, arith, not, add64, All-always,
}
use async_udx.Constants.{instant_limit}
use async_udx.Stream.Clock.{poll_incoming-InTime, drive_incoming_ok}
use async_udx.Error.{Outcome, ok, err, panic, from_io, err-ok, panic-ok}
use async_udx.Packet.Types.{Shared, PacketRef, shared, packet_len}
use async_udx.Packet.Set.{PacketSet}
use async_udx.Stream.Defs.{Stream, connect, terminate, closed_and_drained}
use async_udx.Stream.Receive.{Poll, pending}
use async_udx.Stream.Timeouts.{
  max_retransmits, poll_check_timeouts, flush_loop, flush_waiting_packets,
}
use async_udx.Stream.Transmit.{transmits}
use async_udx.Stream.Drive.{
  Env, poll_incoming, drive_transmit, drive_timeouts, poll_drive, schedule, driver_poll,
}
use async_udx.Stream.Run.{Reach}
use async_udx.Stream.Invariant.{poll_incoming_keeps}
use async_udx.Stream.Inflight.Defs.{IsCounted}
use async_udx.Stream.Inflight.Steps.{IsCounted-Invariant, Reach-IsCounted, connect-IsCounted}
use async_udx.Stream.Batches.{flat, poll_transmit_sets}
use async_udx.Stream.Resending.Unchanged.{flush_loop-Frame}
use async_udx.Stream.Resending.Waiting.{Oldest, flush_loop_sends, marked-Frame, marked_ready}

-- What the messages to the socket say: the packet `p` is in one of their sets.
abbrev pub Carried : Shared → Stream → Stream → Type 0
Carried p s t =
    (sets : List PacketSet) × (front more : List PacketRef) × (t.send_tx
      ≡ s.send_tx ++ transmits sets)
    × (flat sets ≡ front ++ shared p ∷ more)

-- The rest of the poll, once the oldest packet waits.
drive_transmit_sends :
    (gso k : ℕ) (p : Shared) (s : Stream)
    → 1 ≤ gso
    → s.send_open ≡ true
    → Oldest k p s
    → k < s.seq
    → (s.cells p.cell).waiting ≡ true
    → add64 s.inflight (packet_len p.packet) ≤ s.cwnd
    → (t : Stream) × (drive_transmit gso s ≡ (t, ok false)) × Carried p s t
unfolding drive_transmit flush_waiting_packets
drive_transmit_sends gso k p s some_room live o less waits room =
    let n = s.seq - s.remote_acked in
    let flushed = flush_loop n s.remote_acked s in
    let frame = flush_loop-Frame n s.remote_acked s in
    let (more, queue) =
      flush_loop_sends n s.remote_acked k p s o.open_range (omega (arith, less, o.open_range))
        o.first o.out waits room in
    let (t, sets, sent, _, messages, all, _) =
      poll_transmit_sets gso flushed some_room (frame.3 ∙ live) in
    (
      t,
      rw sent refl,
      (sets, s.send_queue, more, messages ∙ ap (λ l. l ++ transmits sets) frame.2, all ∙ queue),
    )

-- The stream fails because a packet was sent too often, or sends the packet `p` with the messages that
-- it leaves for the socket, and goes to sleep.
abbrev pub Resends : Shared → Stream → Stream × Outcome (Poll (Unit {0})) → Type 0
Resends p s r =
    (r.0.error ≡ some (from_io max_retransmits)) ⊎ ((r.1 ≡ ok pending) × Carried p s r.0)

failed :
    (env : Env) (r : Stream × Outcome (Unit {0}))
    → r.1 ≡ err max_retransmits
    → (schedule env (drive_timeouts env r)).0.error ≡ some (from_io max_retransmits)
unfolding schedule drive_timeouts terminate
failed env (t, ok a) h = cc
failed env (t, err e) h = cc
failed env (t, panic) h = cc

passed :
    (env : Env) (p : Shared) (s : Stream) (r : Stream × Outcome (Unit {0}))
    → r.1 ≡ ok tt
    → (t : Stream) × (drive_transmit env.gso r.0 ≡ (t, ok false)) × Carried p s t
    → let end = schedule env (drive_timeouts env r) in (end.1 ≡ ok pending) × Carried p s end.0
unfolding schedule drive_timeouts
passed env p s (t, ok a) h (u, e, carried) = rw e (refl, carried)
passed env p s (t, err e) h sent = absurd (err-ok h)
passed env p s (t, panic) h sent = absurd (panic-ok h)

drive_timeouts-Resends :
    (env : Env) (k : ℕ) (p : Shared) (s : Stream)
    → 1 ≤ env.gso
    → s.send_open ≡ true
    → IsCounted s
    → Oldest k p s
    → env.now + 2 * s.timings.rto < instant_limit
    → Resends p s (schedule env (drive_timeouts env (poll_check_timeouts true env.now s)))
drive_timeouts-Resends env k p s some_room live v o soon =
    let r = poll_check_timeouts true env.now s in
    let frame = marked-Frame env.now k p s v o soon in
    elim (marked_ready env.now k p s v o soon) [
      | inl e ↦ inl (failed env r e)
      | inr (e, (oldest, less, waits, room)) ↦
          let (t, sent, (sets, front, more, messages, all)) =
            drive_transmit_sends env.gso k p r.0 some_room (frame.3 ∙ live) oldest less waits
              room in
          let behind = messages ∙ ap (λ l. l ++ transmits sets) frame.2 in
          inr (passed env p s r e (t, sent, (sets, front, more, behind, all)))
    ]

-- In every state that a new stream reaches while its sequence numbers do not wrap around: when the
-- timer has fired, the oldest packet that is out, once the messages from the socket are handled, is sent
-- again by the same poll. It is in one of the sets that go to the socket behind the messages that are
-- there, and the driver goes to sleep; or the stream ends with the error `max_retransmits`. The socket is
-- taken to be there and to send one segment or more in a call, the driver not to be done, no packet below
-- `remote_acked` to be out, and the clock to be in range for twice the timeout.
pub driver_poll-Resends :
    (now dest remote_id local_id k : ℕ) (p : Shared) (env : Env) (s : Stream)
    → Reach (connect now dest remote_id local_id) s
    → env.fired ≡ true
    → 1 ≤ env.gso
    → s.recv_open ≡ true
    → closed_and_drained s ≡ false
    → let behind = (poll_incoming env.now (record s { drive_waker = none })).0 in
      behind.send_open ≡ true
      → Oldest k p behind
      → env.now + 2 * behind.timings.rto < instant_limit
      → Resends p behind (driver_poll env s)
unfolding driver_poll poll_drive closed_and_drained
driver_poll-Resends now dest remote_id local_id k p env s r fired some_room live busy there o soon =
    let asleep = record s { drive_waker = none } in
    let behind = (poll_incoming env.now asleep).0 in
    let counted : IsCounted behind =
      poll_incoming_keeps IsCounted (λ _. Unit) (λ _. Unit) Unit IsCounted-Invariant env.now asleep
        (All-always (λ _. tt) s.recv_rx)
        (Reach-IsCounted (connect-IsCounted now dest remote_id local_id) r) in
    let in_time = poll_incoming-InTime env.now asleep live (omega (arith, soon)) in
    rw (busy, drive_incoming_ok env (poll_incoming env.now asleep) in_time, fired)
      (drive_timeouts-Resends env k p behind some_room there counted o soon)
