-- ===== src/Stream/Panics.antt =====
-- The driver of a stream of src/stream.rs, and the panics that its code names.
use async_udx.Prelude.{
  ◌+◌, ◌*◌, ◌<◌, ltb, ltb→le, sym, subst, arith, if-cases, Bool-cases, ℕ, ◌≤◌, ◌-◌, ◌≡◌, ◌≢◌, refl,
  none, Bool, true, false, not, ◌||◌, ◌==◌, if-both, if◌then◌else◌, inl, inr,
}
use async_udx.Constants.{instant_limit}
use async_udx.Stream.Clock.{poll_incoming-InTime, drive_incoming_ok}
use async_udx.Error.{Outcome, ok, err, panic}
use async_udx.Stream.Defs.{Stream, connect, closed_and_drained}
use async_udx.Stream.Receive.{Poll}
use async_udx.Stream.Timeouts.{poll_check_timeouts, on_timeout, mark_lost, flush_waiting_packets}
use async_udx.Stream.Drive.{
  Env, poll_incoming, poll_drive, drive_incoming, drive_timeouts, drive_transmit, schedule,
  driver_poll, socket_gone,
}
use async_udx.Stream.Run.{Reach}
use async_udx.Stream.Batches.{poll_transmit_sets}
use async_udx.Stream.Lost.{mark_lost_lem}
use async_udx.Stream.Arriving.{View, Keeps, Rule, poll_incoming-Keeps}
use async_udx.Stream.Kept.{poll_check_timeouts-Keeps, flush_waiting_packets-Keeps}
use async_udx.Stream.Closing.{Any, All-messages, Reach-keeps}

-- The socket still takes messages.
abbrev Live : View
Live m ack cursor e st live = live.0 ≡ true

live_rule : Rule Live Any
live_rule = record {
  receive = λ m a c e st live p h d v. v;
  ended = λ m a c e x st live v. v;
  remote = λ m a c e x st live v. v;
}

live : (s : Stream) → s.send_open ≡ true → Keeps Live Any s
live s e = (e, All-messages s.recv_rx)

abbrev Calm : {A : Type 0} → Outcome A → Type 0
Calm (ok a) = Unit
Calm (err e) = Unit
Calm panic = ⊥

drive_transmit-Calm :
    (gso : ℕ) (s : Stream) → 1 ≤ gso → s.send_open ≡ true → Calm (drive_transmit gso s).1
unfolding drive_transmit
drive_transmit-Calm gso s room e =
    let flushed = flush_waiting_packets s in
    let still = (flush_waiting_packets-Keeps Live Any live_rule s (live s e)).0 in
    let sets = poll_transmit_sets gso flushed room still in rw sets.2 tt

mark_lost-Calm : (n i : ℕ) (s : Stream) → Calm (mark_lost n i s).1
mark_lost-Calm n i s = elim (mark_lost_lem n i s).1 [
  | inl (e, waits) ↦ rw e tt
  | inr (e, spent) ↦ rw e tt
]

poll_check_timeouts-Calm :
    (fired : Bool) (now : ℕ) (s : Stream)
    → now + 2 * s.timings.rto < instant_limit
    → Calm (poll_check_timeouts fired now s).1
unfolding poll_check_timeouts on_timeout
poll_check_timeouts-Calm fired now s soon =
    if-both (λ (r : Stream × Outcome (Unit {0})). Calm r.1) (not fired || s.remote_acked == s.seq)
      tt
      (if-cases (λ (r : Stream × Outcome (Unit {0})). Calm r.1)
        (ltb (now + 2 * s.timings.rto) instant_limit)
        (λ _. mark_lost-Calm (s.seq - s.remote_acked) s.remote_acked _)
        (λ late. absurd (omega (arith, ltb→le _ _ late, soon))))

drive_timeouts-Calm :
    (env : Env) (r : Stream × Outcome (Unit {0}))
    → 1 ≤ env.gso
    → r.0.send_open ≡ true
    → Calm r.1
    → Calm (drive_timeouts env r).1
unfolding drive_timeouts
drive_timeouts-Calm env (s, ok _) room e calm = drive_transmit-Calm env.gso s room e
drive_timeouts-Calm env (s, err x) room e calm = tt
drive_timeouts-Calm env (s, panic) room e calm = calm

schedule-Calm : (env : Env) (r : Stream × Outcome Bool) → Calm r.1 → Calm (schedule env r).1
unfolding schedule
schedule-Calm env (s, ok true) calm = tt
schedule-Calm env (s, ok false) calm = tt
schedule-Calm env (s, err e) calm = tt
schedule-Calm env (s, panic) calm = calm

-- The stream's end of the channel from the socket is dropped before, or with, the other one.
abbrev Ordered : Stream → Type 0
Ordered s = s.recv_open ≡ true → s.send_open ≡ true

-- A socket that is gone ends the poll with an error.
gone-Calm :
    (env : Env) (b : Bool) (r : Stream × Outcome (Unit {0})) (s : Stream)
    → b ≡ false
    → Calm (drive_incoming env (if b then r else (s, err socket_gone))).1
unfolding drive_incoming
gone-Calm env true r s h = cc
gone-Calm env false r s h = tt

driven-Calm :
    (env : Env) (s : Stream)
    → 1 ≤ env.gso
    → Ordered s
    → env.now + 2 * (poll_incoming env.now s).0.timings.rto < instant_limit
    → Calm (drive_incoming env (poll_incoming env.now s)).1
driven-Calm env s room ordered soon = elim (Bool-cases s.recv_open) [
  | inl here ↦
      let r = poll_incoming env.now s in
      let in_time = poll_incoming-InTime env.now s here (omega (arith, soon)) in
      let still = (poll_incoming-Keeps Live Any live_rule env.now s (live s (ordered here))).0 in
      subst (λ (o : Stream × Outcome Bool). Calm o.1) (sym (drive_incoming_ok env r in_time))
        (drive_timeouts-Calm env (poll_check_timeouts env.fired env.now r.0) room
          (poll_check_timeouts-Keeps Live Any live_rule env.fired env.now r.0 (live r.0 still)).0
          (poll_check_timeouts-Calm env.fired env.now r.0 soon))
  | inr gone ↦ unfold poll_incoming in gone-Calm env s.recv_open _ _ gone
]

Calm-panic : {A : Type 0} (o : Outcome A) → Calm o → o ≢ panic
Calm-panic {A} (ok a) h e = cc
Calm-panic {A} (err x) h e = cc
Calm-panic {A} panic h e = h

-- In every state that a new stream reaches while its sequence numbers do not wrap around, a poll of its
-- driver does not panic at the `unimplemented!()` of `poll_transmit`, nor where it unwraps the time of the
-- next timeout, whatever the timer and the messages are. The system is taken to send one segment or more
-- in a call, and the clock to be in range for twice the timeout. Polls are single steps here, so the
-- socket does not end between the messages from it and those to it.
pub driver_poll_no_panic :
    (now dest remote_id local_id : ℕ) (env : Env) (s : Stream)
    → Reach (connect now dest remote_id local_id) s
    → 1 ≤ env.gso
    → let behind = (poll_incoming env.now (record s { drive_waker = none })).0 in
      env.now + 2 * behind.timings.rto < instant_limit → (driver_poll env s).1 ≢ panic
unfolding driver_poll poll_drive
driver_poll_no_panic now dest remote_id local_id env s r room soon =
    Calm-panic (driver_poll env s).1 (
      if-both (λ (r : Stream × Outcome (Poll (Unit {0}))). Calm r.1)
        (closed_and_drained (record s { drive_waker = none })) tt
        (schedule-Calm env _ (driven-Calm env (record s { drive_waker = none }) room ordered soon)))
  where
    start : Ordered (connect now dest remote_id local_id)
    start = unfold connect in λ e. refl

    ordered : Ordered s
    ordered =
        Reach-keeps (λ e st live. live.1 ≡ true → live.0 ≡ true) (λ e x st live v. v)
          (λ e x st live v. v) (λ e st live v h. cc) (λ e st live v h. cc) start r
