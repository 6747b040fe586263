-- ===== src/Socket/Buffer/Sending.antt =====
-- What `poll_transmit` of src/socket.rs does to the receive buffer.
use async_udx.Prelude.{
  ℕ, ◌≡◌, inl, inr, List, [], ◌∷◌, Option, Bool, false, if-both, ltb, length, Option-cases,
}
use async_udx.Error.{ErrorKind, interrupted, Outcome, ok, err, panic}
use async_udx.Packet.Types.{Transmit, is_empty}
use async_udx.Packet.Set.{PacketSet, to_transmit}
use async_udx.Socket.Events.{EventOutgoing, transmit, transmit_dgram, stream_dropped}
use async_udx.Socket.Defs.{Socket}
use async_udx.Socket.Transmit.{
  SendEnv, SendAnswer, push_set, sent, send_pending, send_failed, take_event, fill, sent_off,
  send_error, send_batch, poll_transmit,
}
use async_udx.Socket.Driver.{poll_overflow}
use async_udx.Socket.Receiving.{go_on-both}

-- Sending leaves the buffer alone.
module _ (b : Option ℕ) where
  abbrev pub Has : Socket → Type 0
  Has s = s.recv_buf ≡ b

  push_set-Has :
      (set : PacketSet) (o : Outcome Transmit) (s : Socket) → Has s → Has (push_set set o s).0
  push_set-Has set (ok t) s v = v
  push_set-Has set (err e) s v = v
  push_set-Has set panic s v = v

  take_event-Has :
      (env : SendEnv) (event : EventOutgoing) (s : Socket) → Has s → Has (take_event env event s).0
  unfolding take_event
  take_event-Has env (stream_dropped id) s v = v
  take_event-Has env (transmit_dgram d) s v = v
  take_event-Has env (transmit set) s v = push_set-Has set (to_transmit (env.cells set) set) s v

  fill-Has :
      (env : SendEnv) (events : List EventOutgoing) (s : Socket) → Has s → Has (fill env events s).0
  unfolding fill
  fill-Has env [] s v =
      if-both (λ (r : Socket × Outcome Bool). Has r.0)
        (ltb (length s.outgoing_transmits) env.batch_size) v v
  fill-Has env (event ∷ events) s v =
      if-both (λ (r : Socket × Outcome Bool). Has r.0)
        (ltb (length s.outgoing_transmits) env.batch_size)
        (go_on-both Has (take_event env event s) (λ _. fill env events)
          (take_event-Has env event s v) (λ _ t w. fill-Has env events t w))
        v

  answer-Has :
      (env : SendEnv) (waiting : Bool) (a : SendAnswer) (s : Socket)
      → Has s
      → Has
          (elim a as (λ _. Socket × Outcome Bool) [
            | send_pending ↦ (s, ok false)
            | send_failed e ↦ send_error env.now e e.kind s
            | sent k ↦ sent_off env.now k waiting s
          ]).0
  unfolding sent_off send_error
  answer-Has env waiting send_pending s v = v
  answer-Has env waiting (send_failed e) s v = failed e.kind
    where
      failed : (kind : ErrorKind) → Has (send_error env.now e kind s).0
      failed interrupted = v
      failed _ = v
  answer-Has env waiting (sent k) s v =
      if-both (λ (r : Socket × Outcome Bool). Has r.0) (ltb (length s.outgoing_transmits) k) v v

  pub poll_overflow-Has :
      (env : SendEnv) (cleared : Bool) (s : Socket) → Has s → Has (poll_overflow env cleared s).0
  unfolding poll_overflow poll_transmit send_batch
  poll_overflow-Has env cleared s v = elim (Option-cases s.send_overflow_timer) [
    | inl none_set ↦
        rw (none_set, poll_overflow)
          (go_on-both Has (fill env s.send_rx s) (send_batch env) (fill-Has env s.send_rx s v)
            λ waiting t w.
              if-both (λ (r : Socket × Outcome Bool). Has r.0) (is_empty t.outgoing_transmits) w
                (answer-Has env waiting (env.answer t.outgoing_transmits) t w))
    | inr (t, set) ↦
        rw (set, poll_overflow) (if-both (λ (r : Socket × Outcome Bool). Has r.0) cleared v v)
  ]
