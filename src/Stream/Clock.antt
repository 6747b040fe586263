-- ===== src/Stream/Clock.antt =====
-- Where the clock of src/stream.rs is in range, the driver goes on behind the messages from the socket.
use async_udx.Prelude.{
  ℕ, ◌+◌, ◌-◌, Bool, false, if◌then◌else◌, ◌<◌, ◌≡◌, refl, true, arith, if-cases, leb, ltb, ltb→le,
  [],
}
use async_udx.Constants.{instant_limit}
use async_udx.Error.{Outcome, ok, err, panic, err-ok, panic-ok}
use async_udx.Stream.Defs.{Stream}
use async_udx.Stream.Ack.{reset_timeout, wake_writer, ack_loop, handle_incoming_max_remote_ack}
use async_udx.Stream.Timeouts.{poll_check_timeouts}
use async_udx.Stream.Drive.{Env, incoming_loop, poll_incoming, drive_timeouts, drive_incoming}

abbrev InTime : ℕ → Stream × Outcome (Unit {0}) → Type 0
InTime now r = now + r.0.timings.rto < instant_limit → r.1 ≡ ok tt

handle_max-InTime :
    (now ack : ℕ) (s : Stream) → InTime now (handle_incoming_max_remote_ack now ack s)
unfolding handle_incoming_max_remote_ack reset_timeout
handle_max-InTime now ack s =
    let moved = wake_writer (ack_loop now (ack - s.remote_acked) s) in
    if-cases (InTime now) (leb ack s.remote_acked) (λ _ _. refl)
      (λ _.
        if-cases (InTime now) (ltb (now + moved.timings.rto) instant_limit) (λ _ _. refl)
          (λ late soon. absurd (omega (arith, ltb→le _ _ late, soon))))

pub poll_incoming-InTime :
    (now : ℕ) (s : Stream)
    → s.recv_open ≡ true
    → now + (poll_incoming now s).0.timings.rto < instant_limit
    → (poll_incoming now s).1 ≡ ok tt
unfolding poll_incoming
poll_incoming-InTime now s live =
    let r = incoming_loop now s.recv_rx 0 (record s { recv_rx = [] }) in
    pick s.recv_open _ _ live (handle_max-InTime now r.1 r.0)
  where
    pick :
        (b : Bool) (x y : Stream × Outcome (Unit {0}))
        → b ≡ true
        → InTime now x
        → InTime now (if b then x else y)
    pick true x y h v = v
    pick false x y h v = cc

pub drive_incoming_ok :
    (env : Env) (r : Stream × Outcome (Unit {0}))
    → r.1 ≡ ok tt
    → drive_incoming env r ≡ drive_timeouts env (poll_check_timeouts env.fired env.now r.0)
unfolding drive_incoming
drive_incoming_ok env (t, ok a) h = refl
drive_incoming_ok env (t, err e) h = absurd (err-ok h)
drive_incoming_ok env (t, panic) h = absurd (panic-ok h)
