-- ===== src/Socket/Queues.antt =====
-- The bounds of a socket's queues.
use async_udx.Prelude.{
  ℕ, ◌≤◌, ◌<◌, ◌≡◌, List, [], ◌∷◌, some, Bool, false, arith, if-both, if-cases, ltb, ltb→lt, length,
  length-append, length-drop, min, Option-cases, inl, inr, ◌==◌, ◌||◌,
}
use async_udx.Constants.{recv_queue_max_len}
use async_udx.Error.{ErrorKind, interrupted, IoError, Outcome, ok, err, panic}
use async_udx.Packet.Types.{SocketAddr, Transmit, Dgram, is_empty, into_transmit}
use async_udx.Packet.Set.{to_transmit}
use async_udx.Socket.Events.{EventOutgoing, transmit, transmit_dgram, stream_dropped}
use async_udx.Socket.Defs.{Socket, bind, connect, send, poll_dgram, drop_socket}
use async_udx.Socket.Receive.{poll_recv}
use async_udx.Socket.Transmit.{
  SendEnv, SendAnswer, push_set, sent, send_pending, send_failed, take_event, fill, sent_off,
  send_error, send_batch, poll_transmit,
}
use async_udx.Socket.Driver.{poll_overflow, rest, poll}
use async_udx.Stream.Receive.{Poll, ready, pending}
use async_udx.Socket.Run.{
  Step, connecting, sending, receiving, dropping, polling, message, stream_change, Reach, here,
  next,
}
use async_udx.Socket.Receiving.{go_on-both, Bounds, poll_recv-Bounds}

module _ (n : ℕ) where
  -- A message that is taken while there is room for a transmit.
  take_event-Bounds :
      (env : SendEnv) (event : EventOutgoing) (s : Socket)
      → length s.outgoing_transmits < n
      → Bounds n s
      → Bounds n (take_event env event s).0
  unfolding take_event
  take_event-Bounds env (stream_dropped id) s room v = v
  take_event-Bounds env (transmit_dgram d) s room v =
      let l = length-append s.outgoing_transmits (into_transmit d ∷ []) in
      (v.0, omega (arith, l), omega (arith, l, v.2))
  take_event-Bounds env (transmit set) s room v = go (to_transmit (env.cells set) set)
    where
      go : (o : Outcome Transmit) → Bounds n (push_set set o s).0
      go (ok t) =
          let l = length-append s.outgoing_transmits (t ∷ []) in
          let m = length-append s.outgoing_packet_sets (set ∷ []) in
          (v.0, omega (arith, l), omega (arith, l, m, v.2))
      go (err e) = v
      go panic = v

  fill-Bounds :
      (env : SendEnv) (events : List EventOutgoing) (s : Socket)
      → env.batch_size ≡ n
      → Bounds n s
      → Bounds n (fill env events s).0
  unfolding fill
  fill-Bounds env [] s e v =
      if-both (λ (r : Socket × Outcome Bool). Bounds n r.0)
        (ltb (length s.outgoing_transmits) env.batch_size) v v
  fill-Bounds env (event ∷ events) s e v =
      if-cases (λ (r : Socket × Outcome Bool). Bounds n r.0)
        (ltb (length s.outgoing_transmits) env.batch_size)
        (λ room.
          go_on-both (Bounds n) (take_event env event s) (λ _. fill env events)
            (take_event-Bounds env event s (omega (arith, e, ltb→lt _ _ room)) v)
            (λ _ t w. fill-Bounds env events t e w))
        (λ _. v)

  sent_off-Bounds :
      (now k : ℕ) (waiting : Bool) (s : Socket) → Bounds n s → Bounds n (sent_off now k waiting s).0
  unfolding sent_off
  sent_off-Bounds now k waiting s v =
      let sets = min k (length s.outgoing_packet_sets) in
      let l = length-drop k s.outgoing_transmits in
      let m = length-drop sets s.outgoing_packet_sets in
      if-both (λ (r : Socket × Outcome Bool). Bounds n r.0) (ltb (length s.outgoing_transmits) k) v
        (v.0, omega (arith, l, v.1), omega (arith, l, m, v.2))

  send_batch-Bounds :
      (env : SendEnv) (waiting : Bool) (s : Socket)
      → Bounds n s
      → Bounds n (send_batch env waiting s).0
  unfolding send_batch send_error
  send_batch-Bounds env waiting s v =
      if-both (λ (r : Socket × Outcome Bool). Bounds n r.0) (is_empty s.outgoing_transmits) v
        (go (env.answer s.outgoing_transmits))
    where
      failed : (e : IoError) (kind : ErrorKind) → Bounds n (send_error env.now e kind s).0
      failed e interrupted = v
      failed e _ = v

      go :
          (a : SendAnswer)
          → Bounds n
              (elim a as (λ _. Socket × Outcome Bool) [
                | send_pending ↦ (s, ok false)
                | send_failed e ↦ send_error env.now e e.kind s
                | sent k ↦ sent_off env.now k waiting s
              ]).0
      go send_pending = v
      go (send_failed e) = failed e e.kind
      go (sent k) = sent_off-Bounds env.now k waiting s v

  poll_overflow-Bounds :
      (env : SendEnv) (cleared : Bool) (s : Socket)
      → env.batch_size ≡ n
      → Bounds n s
      → Bounds n (poll_overflow env cleared s).0
  unfolding poll_overflow poll_transmit
  poll_overflow-Bounds env cleared s e v = elim (Option-cases s.send_overflow_timer) [
    | inl none_set ↦
        rw (none_set, poll_overflow)
          (go_on-both (Bounds n) (fill env s.send_rx s) (send_batch env)
            (fill-Bounds env s.send_rx s e v) (send_batch-Bounds env))
    | inr (t, set) ↦
        rw (set, poll_overflow) (if-both (λ (r : Socket × Outcome Bool). Bounds n r.0) cleared v v)
  ]

  Step-Bounds : {s t : Socket} → Step n s t → Bounds n s → Bounds n t
  unfolding connect send poll_dgram drop_socket poll rest
  Step-Bounds (connecting now dest l r s) v = v
  Step-Bounds (sending dest buf s) v = v
  Step-Bounds (receiving waker s) v = go s.recv_dgrams v.0
    where
      go :
          (q : List Dgram)
          → length q ≤ recv_queue_max_len
          → Bounds n
              (elim q as (λ _. Socket × Poll (SocketAddr × List ℕ)) [
                | dgram ∷ others ↦
                    (record s { recv_dgrams = others }, ready (dgram.dest, dgram.buf))
                | [] ↦ (record s { recv_waker = some waker }, pending)
              ]).0
      go [] h = v
      go (d ∷ q) h = (omega (arith, h), v.1, v.2)
  Step-Bounds (dropping k s) v = if-both (Bounds n) (k == 2) v v
  Step-Bounds (polling waker env cleared answers s e) v =
      go_on-both (Bounds n) (poll_recv env.batch_size answers s) _
        (poll_recv-Bounds n env.batch_size answers s v)
        λ got t w.
          go_on-both (Bounds n) (poll_overflow env cleared t) _
            (poll_overflow-Bounds env cleared t e w)
            λ sent u x.
              if-both (λ (r : Socket × Outcome (Poll (Unit {0}))). Bounds n r.0) _ x
                (if-both (λ (r : Socket × Outcome (Poll (Unit {0}))). Bounds n r.0) (got || sent) x
                  x)
  Step-Bounds (message event s) v = v
  Step-Bounds (stream_change id handle s) v = v

  Reach-Bounds : {s t : Socket} → Bounds n s → Reach n s t → Bounds n t
  Reach-Bounds v here = v
  Reach-Bounds v (next r step) = Step-Bounds step (Reach-Bounds v r)

-- In every state that a new socket reaches, at most 1024 datagrams wait to be received, at most
-- `BATCH_SIZE` transmits wait to be sent, and no more packet sets wait for their time than transmits.
pub reached-Bounds :
    (n : ℕ) (s : Socket)
    → Reach n (bind n) s
    → (length s.recv_dgrams ≤ 1024)
      × (length s.outgoing_transmits ≤ n)
      × (length s.outgoing_packet_sets ≤ length s.outgoing_transmits)
unfolding bind
reached-Bounds n s r = Reach-Bounds n (omega arith, omega arith, omega arith) r
