-- ===== src/Stream/Delivery/Steps.antt =====
-- The receiver's invariant over the polls of a stream's driver and its writes.
use async_udx.Prelude.{ℕ, ◌≡◌, List, true, All}
use async_udx.Constants.{udx_header_data}
use async_udx.Packet.Types.{has_type}
use async_udx.Socket.Events.{EventIncoming, packet_event}
use async_udx.Stream.Defs.{Stream}
use async_udx.Stream.Write.{poll_write}
use async_udx.Stream.Drive.{Env, driver_poll}
use async_udx.Stream.Arriving.{View, Rule}
use async_udx.Stream.Kept.{driver_poll-Keeps, poll_write-Keeps}
use async_udx.Stream.Delivery.Spec.{Delivers}
use async_udx.Stream.Delivery.Arrivals.{Honest, receive-Delivers}

-- A message from the socket that holds a packet as the other side sends it.
abbrev pub IsHonest : (ℕ → List ℕ) → EventIncoming → Type 0
IsHonest f (packet_event p) = has_type p udx_header_data ≡ true → Honest f p

abbrev pub Receives : (ℕ → List ℕ) → List ℕ → Stream → Type 0
Receives f out s = Delivers f s.incoming s.ack s.read_cursor out × All (IsHonest f) s.recv_rx

-- The receiver's invariant says nothing of the error, the state, and the channel to the socket.
abbrev pub ReceiverView : (ℕ → List ℕ) → List ℕ → View
ReceiverView f out m ack cursor e st live = Delivers f m ack cursor out

module _ (f : ℕ → List ℕ) (out : List ℕ) where
  pub receiver_rule : Rule (ReceiverView f out) (IsHonest f)
  receiver_rule = record {
    receive = λ m a c e st live packet h typed v. receive-Delivers f m a c out packet v (h typed);
    ended = λ m a c e x st live v. v;
    remote = λ m a c e x st live v. v;
  }

  pub driver_poll-Receives :
      (env : Env) (s : Stream) → Receives f out s → Receives f out (driver_poll env s).0
  driver_poll-Receives env s v =
      driver_poll-Keeps (ReceiverView f out) (IsHonest f) receiver_rule env s v

  pub poll_write-Receives :
      (waker : ℕ) (buf : List ℕ) (s : Stream)
      → Receives f out s
      → Receives f out (poll_write waker buf s).0
  poll_write-Receives waker buf s v =
      poll_write-Keeps (ReceiverView f out) (IsHonest f) receiver_rule waker buf s v
