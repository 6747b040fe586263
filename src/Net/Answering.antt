-- ===== src/Net/Answering.antt =====
-- What a stream of src/stream.rs acknowledges, over its steps.
use async_udx.Prelude.{ℕ, ◌≤◌, List, All-append, add32-lt, take, min, arith, leb, if-both, length}
use async_udx.Constants.{udx_header_data, udx_max_data_size}
use async_udx.Error.{UdxError, close_graceful}
use async_udx.Map.{insert}
use async_udx.Packet.Types.{deref}
use async_udx.Stream.Defs.{Stream, create_packet, wake_driver, close, terminate}
use async_udx.Stream.Write.{queue_packet, send_data_packet}
use async_udx.Stream.Drive.{driver_poll, drop_handle}
use async_udx.Stream.Run.{
  Step, write, read, drive, closing, dropping, deliver, take_messages, packet_sent, forget_stream,
  end_socket,
}
use async_udx.Stream.Invariant.Calls.{poll_write_keeps, poll_read_keeps}
use async_udx.Stream.Delivery.Steps.{Receives}
use async_udx.Net.Made.{Made, InRange, create_packet-Made}
use async_udx.Net.Held.{Held, remove-Held}
use async_udx.Net.Acks.{
  UpTo, create_header-UpTo, Answers-ack, terminate-Answers, driver_poll-Answers,
}

-- A step in which the stream and its socket do not exchange messages.
unfoldable pub Inner : {s t : Stream} → Step s t → Type 0
Inner (deliver event s) = ⊥
Inner (take_messages left s) = ⊥
Inner _ = Unit

-- All packets acknowledge what the stream has got at most, which is `base` or more.
abbrev pub Acking : ℕ → Stream → Type 0
Acking base s = (base ≤ s.ack) × Held (Made (UpTo s.ack)) s × InRange s

send_data_packet-Acking :
    (base : ℕ) (buf : List ℕ) (s : Stream) → Acking base s → Acking base (send_data_packet buf s).0
unfolding send_data_packet queue_packet wake_driver insert
send_data_packet-Acking base buf s v = if-both (λ (r : Stream × ℕ). Acking base r.0) _ v (queued v)
  where
    body : List ℕ
    body = take (min (length buf) udx_max_data_size) buf

    queued : Acking base s → Acking base (queue_packet (create_packet s udx_header_data body) s)
    queued (older, (queue, out, sent), (seq, ack, id)) =
        let new : Made (UpTo s.ack) (create_packet s udx_header_data body) =
          create_packet-Made (UpTo s.ack) s udx_header_data body (seq, ack, id) (omega arith)
            (create_header-UpTo s.ack s udx_header_data body (omega arith) (omega arith)) in
        (
          older,
          (
            All-append (λ p. Made (UpTo s.ack) (deref p)) s.send_queue _ queue (new, tt),
            (new, remove-Held (Made (UpTo s.ack)) _ s.outgoing out),
            sent,
          ),
          (add32-lt s.seq 1, ack, id),
        )

terminate-Acking :
    (f : ℕ → List ℕ) (out : List ℕ) (x : UdxError) (s : Stream)
    → Receives f out s
    → Held (Made (UpTo s.ack)) s
    → InRange s
    → Acking s.ack (terminate x s)
terminate-Acking f out x s r held range =
    let v =
      Answers-ack f out s.ack (terminate x s)
        (terminate-Answers f out s.ack x s (s.ack, held, (omega arith, omega arith, range), r)) in
    (v.0, v.1, v.2)

pub Step-Acking :
    (f : ℕ → List ℕ) (out : List ℕ) {s t : Stream} (step : Step s t)
    → Inner step
    → Receives f out s
    → Acking 0 s
    → Acking s.ack t
unfolding Inner close drop_handle
Step-Acking f out (write waker buf s fits) h r (older, held, range) =
    poll_write_keeps (Acking s.ack) waker buf s (send_data_packet-Acking s.ack) (λ t w. w)
      (omega arith, held, range)
Step-Acking f out (read waker remaining s) h r (older, held, range) =
    poll_read_keeps (Acking s.ack) waker remaining s (λ w. (omega arith, held, range))
Step-Acking f out (drive env s) h r (older, held, range) =
    let v =
      Answers-ack f out s.ack (driver_poll env s).0 (
        driver_poll-Answers f out s.ack env s
          (s.ack, held, (omega arith, omega arith, range), r)) in
    (v.0, v.1, v.2)
Step-Acking f out (closing tx s) h r (older, held, range) =
    terminate-Acking f out close_graceful s r held range
Step-Acking f out (dropping n s) h r (older, held, range) =
    if-both (Acking s.ack) (leb n 2) (terminate-Acking f out close_graceful s r held range)
      (omega arith, held, range)
Step-Acking f out (deliver event s) h r v = absurd h
Step-Acking f out (take_messages left s) h r v = absurd h
Step-Acking f out (packet_sent cell time s) h r (older, held, range) = (omega arith, held, range)
Step-Acking f out (forget_stream s) h r (older, held, range) = (omega arith, held, range)
Step-Acking f out (end_socket s) h r (older, held, range) = (omega arith, held, range)
