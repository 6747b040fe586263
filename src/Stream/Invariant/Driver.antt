-- ===== src/Stream/Invariant/Driver.antt =====
-- The rule for invariants of a stream of src/stream.rs, for what its driver keeps.
use async_udx.Prelude.{
  arith, ℕ, zero, suc, ◌+◌, ◌-◌, ◌*◌, ltb, ◌≡◌, refl, none, Bool, true, false, ◌==◌, All,
  Option-cases, inl, inr, if-both,
}
use async_udx.Constants.{instant_limit}
use async_udx.Error.{Outcome, ok, err, panic, from_io}
use async_udx.Map.{lookup}
use async_udx.Socket.Events.{EventIncoming}
use async_udx.Stream.Defs.{Stream, closed_and_drained}
use async_udx.Stream.Receive.{Poll}
use async_udx.Stream.Timeouts.{
  mark_one, mark_lost, on_timeout, poll_check_timeouts, flush_one, flush_loop,
  flush_waiting_packets,
}
use async_udx.Stream.Drive.{
  Env, poll_drive, drive_incoming, drive_timeouts, drive_transmit, transmitted, schedule,
  driver_poll,
}
use async_udx.Stream.Invariant.{Invariant, OnSome, OnOk, poll_incoming_keeps}

module _ (R : Stream → Type 0) (P : EventIncoming → Type 0) (A : ℕ → Type 0) (T : Type 0)
    (inv : Invariant R P A T) where
  mark_one-R : (i : ℕ) (s : Stream) → T → R s → OnSome R (mark_one i s)
  unfolding mark_one
  mark_one-R i s t v = elim (Option-cases (lookup i s.outgoing)) [
    | inl e ↦ rw (e, mark_one) v
    | inr (p, e) ↦ rw (e, mark_one) (inv.marked i p s t e v)
  ]

  mark_lost-R : (n i : ℕ) (s : Stream) → T → R s → R (mark_lost n i s).0
  unfolding mark_lost
  mark_lost-R zero i s t v = v
  mark_lost-R (suc n) i s t v = elim (Option-cases (mark_one i s)) [
    | inl e ↦ rw (e, mark_lost) v
    | inr (s1, e) ↦ rw (e, mark_lost) (mark_lost-R n (i + 1) s1 t (rw e at (mark_one-R i s t v)))
  ]

  pub poll_check_timeouts_keeps :
      (fired : Bool) (now : ℕ) (s : Stream)
      → (fired ≡ true → T)
      → R s
      → R (poll_check_timeouts fired now s).0
  unfolding poll_check_timeouts on_timeout
  poll_check_timeouts_keeps false now s t v = v
  poll_check_timeouts_keeps true now s t v =
      if-both (λ (r : Stream × Outcome (Unit {0})). R r.0) (s.remote_acked == s.seq) v
        (if-both (λ (r : Stream × Outcome (Unit {0})). R r.0)
          (ltb (now + 2 * s.timings.rto) instant_limit)
          (mark_lost-R _ s.remote_acked _ (t refl) (inv.paced _ _ s (λ h. omega (arith, h)) v)) v)

  flush_one-R : (i : ℕ) (s : Stream) → R s → OnSome R (flush_one i s)
  unfolding flush_one
  flush_one-R i s v = elim (Option-cases (lookup i s.outgoing)) [
    | inl e ↦ rw (e, flush_one) v
    | inr (p, e) ↦ rw (e, flush_one) (inv.flushed i p s e v)
  ]

  flush_loop-R : (n i : ℕ) (s : Stream) → R s → R (flush_loop n i s)
  unfolding flush_loop
  flush_loop-R zero i s v = v
  flush_loop-R (suc n) i s v = elim (Option-cases (flush_one i s)) [
    | inl e ↦ rw (e, flush_loop) v
    | inr (s1, e) ↦ rw (e, flush_loop) (flush_loop-R n (i + 1) s1 (rw e at (flush_one-R i s v)))
  ]

  pub flush_waiting_packets_keeps : (s : Stream) → R s → R (flush_waiting_packets s)
  unfolding flush_waiting_packets
  flush_waiting_packets_keeps s v = flush_loop-R (s.seq - s.remote_acked) s.remote_acked s v

  transmitted-R : (s : Stream) (o : Outcome Stream) → OnOk R o → R s → R (transmitted s o).0
  transmitted-R s (ok t) w v = w
  transmitted-R s (err x) w v = v
  transmitted-R s panic w v = v

  drive_transmit-R : (gso : ℕ) (s : Stream) → R s → R (drive_transmit gso s).0
  unfolding drive_transmit
  drive_transmit-R gso s v =
      let flushed = flush_waiting_packets_keeps s v in
      transmitted-R (flush_waiting_packets s) _ (inv.transmitted gso _ flushed) flushed

  drive_timeouts-R :
      (env : Env) (r : Stream × Outcome (Unit {0})) → R r.0 → R (drive_timeouts env r).0
  unfolding drive_timeouts
  drive_timeouts-R env (s, ok _) v = drive_transmit-R env.gso s v
  drive_timeouts-R env (s, err e) v = v
  drive_timeouts-R env (s, panic) v = v

  drive_incoming-R :
      (env : Env) (r : Stream × Outcome (Unit {0}))
      → (env.fired ≡ true → T)
      → R r.0
      → R (drive_incoming env r).0
  unfolding drive_incoming
  drive_incoming-R env (s, ok _) t v =
      drive_timeouts-R env _ (poll_check_timeouts_keeps env.fired env.now s t v)
  drive_incoming-R env (s, err e) t v = v
  drive_incoming-R env (s, panic) t v = v

  schedule-R : (env : Env) (r : Stream × Outcome Bool) → R r.0 → R (schedule env r).0
  unfolding schedule
  schedule-R env (s, ok true) v = inv.awake _ _ _ _ s v
  schedule-R env (s, ok false) v = inv.awake _ _ _ _ s v
  schedule-R env (s, err e) v = inv.awake _ _ _ _ _ (inv.ended (from_io e) s v)
  schedule-R env (s, panic) v = v

  pub driver_poll_keeps :
      (env : Env) (s : Stream)
      → (env.fired ≡ true → T)
      → All P s.recv_rx
      → R s
      → R (driver_poll env s).0
  unfolding driver_poll poll_drive
  driver_poll_keeps env s t h v =
      let asleep = inv.awake s.read_waker s.write_waker none s.woken s v in
      if-both (λ (r : Stream × Outcome (Poll (Unit {0}))). R r.0)
        (closed_and_drained (record s { drive_waker = none })) (inv.finished _ asleep)
        (schedule-R env _
          (drive_incoming-R env _ t (poll_incoming_keeps R P A T inv env.now _ h asleep)))
