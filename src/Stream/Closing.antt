-- ===== src/Stream/Closing.antt =====
-- How a stream of src/stream.rs closes: its error against its state, over its whole life.
use async_udx.Prelude.{
  Bool, false, ℕ, ◌≡◌, refl, ap, length, List, [], ◌∷◌, Option, none, some, true, arith, All,
  if-both, Option-cases, inl, inr, if◌then◌else◌, leb,
}
use async_udx.Error.{UdxError, Outcome, ok, err, to_io, close_graceful}
use async_udx.Map.{is_some}
use async_udx.Packet.Types.{is_empty}
use async_udx.Socket.Events.{EventIncoming}
use async_udx.Stream.State.{
  StreamState, opened, local_only, remote_only, both_closed, close_local, close_remote,
  local_closed, remote_closed, closed,
}
use async_udx.Stream.Defs.{Stream, connect, terminate, close}
use async_udx.Stream.Receive.{Poll, ready}
use async_udx.Stream.Write.{poll_write, write_loop}
use async_udx.Stream.Drive.{drop_handle}
use async_udx.Stream.Run.{
  Step, write, read, drive, closing, dropping, deliver, take_messages, packet_sent, forget_stream,
  end_socket, Reach, here, next,
}
use async_udx.Stream.Arriving.{View, Keeps, Rule, terminate-Keeps}
use async_udx.Stream.Invariant.Calls.{poll_read_keeps}
use async_udx.Stream.Kept.{driver_poll-Keeps, poll_write-Keeps}

abbrev pub Any : EventIncoming → Type 0
Any event = Unit

pub All-messages : (events : List EventIncoming) → All Any events
All-messages [] = tt
All-messages (event ∷ events) = (tt, All-messages events)

-- An invariant of the error and the state is kept by every step, if `terminate` keeps it, with and
-- without the close of the other side before it.
module _ (Q : Option UdxError → StreamState → Bool × Bool → Type 0)
    (ended : (e : Option UdxError) (x : UdxError) (st : StreamState) (live : Bool × Bool)
      → Q e st live
      → Q (some x) (close_local st) live)
    (remote : (e : Option UdxError) (x : UdxError) (st : StreamState) (live : Bool × Bool)
      → Q e st live
      → Q (some x) (close_local (close_remote st)) live)
    (forgotten : (e : Option UdxError) (st : StreamState) (live : Bool × Bool)
      → Q e st live
      → Q e st (live.0, false))
    (gone : (e : Option UdxError) (st : StreamState) (live : Bool × Bool)
      → Q e st live
      → Q e st (false, false)) where
  abbrev V : View
  V m ack cursor e st live = Q e st live

  abbrev R : Stream → Type 0
  R s = Q s.error s.state (s.send_open, s.recv_open)

  rule : Rule V Any
  rule = record {
    receive = λ m a c e st live p h d w. w;
    ended = λ m a c. ended;
    remote = λ m a c. remote;
  }

  full : (s : Stream) → R s → Keeps V Any s
  full s v = (v, All-messages s.recv_rx)

  terminate-R : (x : UdxError) (s : Stream) → R s → R (terminate x s)
  terminate-R x s v = (terminate-Keeps V Any rule x s (full s v)).0

  Step-keeps : {s t : Stream} → Step s t → R s → R t
  unfolding close drop_handle
  Step-keeps (write waker buf s fits) v = (poll_write-Keeps V Any rule waker buf s (full s v)).0
  Step-keeps (read waker remaining s) v = poll_read_keeps R waker remaining s (λ w. v)
  Step-keeps (drive env s) v = (driver_poll-Keeps V Any rule env s (full s v)).0
  Step-keeps (closing tx s) v = terminate-R close_graceful s v
  Step-keeps (dropping n s) v = if-both R (leb n 2) (terminate-R close_graceful s v) v
  Step-keeps (deliver event s) v = v
  Step-keeps (take_messages left s) v = v
  Step-keeps (packet_sent cell time s) v = v
  Step-keeps (forget_stream s) v = forgotten s.error s.state (s.send_open, s.recv_open) v
  Step-keeps (end_socket s) v = gone s.error s.state (s.send_open, s.recv_open) v

  pub Reach-keeps :
      {s t : Stream}
      → Q s.error s.state (s.send_open, s.recv_open)
      → Reach s t
      → Q t.error t.state (t.send_open, t.recv_open)
  Reach-keeps v here = v
  Reach-keeps v (next r step) = Step-keeps step (Reach-keeps v r)

-- The error stands for the local side, and the other side is never closed alone.
abbrev Agrees : Option UdxError → StreamState → Type 0
Agrees e st = (local_closed st ≡ is_some e) × (closed st ≡ is_some e)

closed_locally :
    (st : StreamState) → (local_closed (close_local st) ≡ true) × (closed (close_local st) ≡ true)
unfolding close_local local_closed remote_closed closed
closed_locally opened = (refl, refl)
closed_locally local_only = (refl, refl)
closed_locally remote_only = (refl, refl)
closed_locally both_closed = (refl, refl)

connect-Agrees :
    (now dest remote_id local_id : ℕ)
    → Agrees (connect now dest remote_id local_id).error (connect now dest remote_id local_id).state
unfolding connect local_closed remote_closed closed
connect-Agrees now dest remote_id local_id = (refl, refl)

-- In every state that a new stream reaches, it counts as closed just where its local side is closed, and
-- just where it has an error.
pub reached-Agrees :
    (now dest remote_id local_id : ℕ) (s : Stream)
    → Reach (connect now dest remote_id local_id) s
    → (local_closed s.state ≡ is_some s.error) × (closed s.state ≡ is_some s.error)
reached-Agrees now dest remote_id local_id s r =
    Reach-keeps (λ e st live. Agrees e st) (λ e x st live v. closed_locally st)
      (λ e x st live v. closed_locally (close_remote st)) (λ e st live v. v) (λ e st live v. v)
      (connect-Agrees now dest remote_id local_id) r

error_stays : (s t : Stream) → is_some s.error ≡ true → Reach s t → is_some t.error ≡ true
error_stays s t failed r =
    Reach-keeps (λ e st live. is_some e ≡ true) (λ e x st live v. refl) (λ e x st live v. refl)
      (λ e st live v. v) (λ e st live v. v) failed r

-- Once a stream has an error it has one after all later steps too, and every write fails with that and
-- changes nothing.
pub Reach-failed :
    (s t : Stream) (waker : ℕ) (buf : List ℕ)
    → is_some s.error ≡ true
    → Reach s t
    → (x : UdxError) × (t.error ≡ some x) × (poll_write waker buf t ≡ (t, ready (err (to_io x))))
unfolding poll_write
Reach-failed s t waker buf failed r = elim (Option-cases t.error) [
  | inl none_left ↦ absurd (clash none_left (error_stays s t failed r))
  | inr (x, e) ↦ (x, e, ap refuse e)
]
  where
    refuse : Option UdxError → Stream × Poll (Outcome ℕ)
    refuse o = elim o [
      | some e ↦ (t, ready (err (to_io e)))
      | none ↦ if is_empty buf then (t, ready (ok 0)) else write_loop (length buf) waker buf 0 t
    ]

    clash : t.error ≡ none → is_some t.error ≡ true → ⊥
    clash e f = ground arith
