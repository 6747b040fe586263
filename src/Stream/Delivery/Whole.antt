-- ===== src/Stream/Delivery/Whole.antt =====
-- What a reader of a stream sees over the stream's whole life.
use async_udx.Prelude.{
  ℕ, ◌≡◌, refl, List, [], ◌∷◌, ◌++◌, none, some, take, arith, All-append, if-both, append-nil, leb,
}
use async_udx.Error.{UdxError, close_graceful}
use async_udx.Map.{lookup}
use async_udx.Packet.Types.{IncomingPacket}
use async_udx.Stream.Defs.{Stream, connect, terminate, close}
use async_udx.Stream.Receive.{poll_read, read_next}
use async_udx.Stream.Drive.{drop_handle}
use async_udx.Stream.Run.{
  Step, write, read, drive, closing, dropping, deliver, take_messages, packet_sent, forget_stream,
  end_socket,
}
use async_udx.Stream.Invariant.Calls.{poll_read_keeps}
use async_udx.Stream.Delivery.Spec.{prefix, offset}
use async_udx.Stream.Delivery.ReadLoop.{Bounded, read_next-Delivers}
use async_udx.Stream.Delivery.Steps.{IsHonest, Receives, driver_poll-Receives, poll_write-Receives}

-- The bytes that a step puts into the reader's buffer.
unfoldable pub output : {s t : Stream} → Step s t → List ℕ
output (read waker remaining s) = (poll_read waker remaining s).1
output _ = []

-- The step delivers no packet but one that the other side sends for the bodies `f`.
unfoldable pub Sound : {s t : Stream} → (ℕ → List ℕ) → Step s t → Type 0
Sound f (deliver event s) = IsHonest f event
Sound f _ = Unit

-- A run of steps from `s`, with the bytes that its reads put into their buffers.
pub data Reads (f : ℕ → List ℕ) (s : Stream) : List ℕ → Stream → Type 0 where
  start : Reads f s [] s
  more :
      {out : List ℕ} {t u : Stream}
      → Reads f s out t
      → (step : Step t u) → Sound f step
      → Reads f s (out ++ output step) u

terminate-Receives :
    (f : ℕ → List ℕ) (out : List ℕ) (e : UdxError) (s : Stream)
    → Receives f out s
    → Receives f out (terminate e s)
unfolding terminate
terminate-Receives f out e s v = v

Step-Receives :
    (f : ℕ → List ℕ) (out : List ℕ) {s t : Stream} (step : Step s t)
    → Bounded f
    → Sound f step
    → Receives f out s
    → Receives f (out ++ output step) t
unfolding poll_read close drop_handle output Sound
Step-Receives f out (read waker remaining s) b h v =
    let kept = read_next-Delivers f remaining out s b v.0 in
    poll_read_keeps (Receives f (out ++ (read_next remaining s).filled)) waker remaining s
      (λ w. (kept.0, v.1))
Step-Receives f out (write waker buf s fits) b h v =
    rw append-nil (poll_write-Receives f out waker buf s v)
Step-Receives f out (drive env s) b h v = rw append-nil (driver_poll-Receives f out env s v)
Step-Receives f out (closing tx s) b h v =
    rw append-nil (terminate-Receives f out close_graceful s v)
Step-Receives f out (dropping n s) b h v =
    rw append-nil
      (if-both (Receives f out) (leb n 2) (terminate-Receives f out close_graceful s v) v)
Step-Receives f out (deliver event s) b h v =
    rw append-nil (v.0, All-append (IsHonest f) s.recv_rx (event ∷ []) v.1 (h, tt))
Step-Receives f out (take_messages left s) b h v = rw append-nil v
Step-Receives f out (packet_sent cell time s) b h v = rw append-nil v
Step-Receives f out (forget_stream s) b h v = rw append-nil v
Step-Receives f out (end_socket s) b h v = rw append-nil v

pub connect-Receives :
    (f : ℕ → List ℕ) (now dest remote_id local_id : ℕ)
    → Receives f [] (connect now dest remote_id local_id)
unfolding connect lookup prefix
connect-Receives f now dest remote_id local_id = (
  record {
    waits = λ k p e. absurd (clash e);
    behind = omega arith;
    gap = refl;
    full = λ k lo hi. absurd (omega arith);
    output = refl;
  },
  tt,
)
  where
    clash : {p : IncomingPacket} → none ≡ some p → ⊥
    clash h = cc

pub Reads-Receives :
    (f : ℕ → List ℕ) (s t : Stream) (out : List ℕ)
    → Bounded f
    → Receives f [] s
    → Reads f s out t
    → Receives f out t
Reads-Receives f s _ _ b v start = v
Reads-Receives f s _ _ b v (more r step h) =
    Step-Receives f _ step b h (Reads-Receives f s _ _ b v r)

-- From a new stream on, whatever writes, timeouts, acks, closes, lost, repeated and reordered packets
-- come between them, the bytes that the reads put into their buffers are together a front of what the
-- other side sent: all bodies before the read cursor, whole and in order, and a front of the next one.
-- The packets that the socket delivers with data are taken to hold the body of their number, unread, in
-- numbers that do not wrap around, and bodies to be shorter than 2 ^ 64.
pub Reads-prefix :
    (f : ℕ → List ℕ) (now dest remote_id local_id : ℕ) (s : Stream) (out : List ℕ)
    → Bounded f
    → Reads f (connect now dest remote_id local_id) out s
    → out
      ≡ prefix f s.read_cursor ++ take (offset (lookup s.read_cursor s.incoming)) (f s.read_cursor)
Reads-prefix f now dest remote_id local_id s out b r =
    (Reads-Receives f _ s out b (connect-Receives f now dest remote_id local_id) r).0.output
