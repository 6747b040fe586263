-- ===== src/Net/Acks.antt =====
-- What a stream of src/stream.rs acknowledges in the packets that it sends.
use async_udx.Prelude.{
  ℕ, zero, suc, ◌≤◌, ◌<◌, ◌≡◌, refl, List, [], Option, some, Bool, true, length, bit_and, u32_mod,
  arith, leb, if-both, if◌then◌else◌,
}
use async_udx.Constants.{udx_header_data, udx_header_end, udx_header_sack}
use async_udx.Error.{UdxError, closed_by_remote}
use async_udx.Map.{lookup, insert}
use async_udx.Packet.Header.{Header}
use async_udx.Packet.Types.{Shared, IncomingPacket, has_type}
use async_udx.Socket.Events.{packet_event}
use async_udx.Stream.State.{local_closed, close_remote}
use async_udx.Stream.Defs.{
  Stream, create_packet, create_header, state_typ, send_state_packet, terminate, wake_driver,
}
use async_udx.Stream.Ack.{ack_packet}
use async_udx.Stream.Receive.{advance, receive_data}
use async_udx.Stream.Timeouts.{flush_packet}
use async_udx.Stream.Transmit.{poll_transmit}
use async_udx.Stream.Drive.{Env, finish, driver_poll}
use async_udx.Stream.Invariant.{Invariant, OnSome, OnOk}
use async_udx.Stream.Invariant.Driver.{driver_poll_keeps}
use async_udx.Stream.Invariant.Calls.{
  ack_packet_keeps, mark_packet_keeps, flush_packet_keeps, poll_transmit_keeps, OnSome-both,
  OnOk-both,
}
use async_udx.Stream.Arriving.{Keeps-Invariant}
use async_udx.Stream.Delivery.Advance.{advance-Advances}
use async_udx.Stream.Delivery.Arrivals.{Holds-NoWrap, receive-Delivers}
use async_udx.Stream.Delivery.Steps.{IsHonest, Receives, ReceiverView, receiver_rule}
use async_udx.Net.Made.{Made, Made-map, InRange, state_packet-Made}
use async_udx.Net.Held.{
  Held, Held-map, terminate-Held, send_state_packet-Held, ack_packet-Held, flush_packet-Held,
  poll_transmit-Held, finish-Held,
}
use async_udx.Net.Driver.{advance_fits}

-- A header that acknowledges what is before `n` at most, all of it from the front on.
abbrev pub UpTo : ℕ → Header → List ℕ → Type 0
UpTo n h body = (h.ack ≤ n) × (bit_and h.typ udx_header_sack ≡ 0)

pub UpTo-mono : {m n : ℕ} → m ≤ n → (h : Header) (body : List ℕ) → UpTo m h body → UpTo n h body
UpTo-mono le h body (ack, typ) = (omega (arith, le, ack), typ)

pub create_header-UpTo :
    (n : ℕ) (s : Stream) (typ : ℕ) (body : List ℕ)
    → typ < 3
    → s.ack ≤ n
    → UpTo n (create_header s typ) body
unfolding create_header
create_header-UpTo n s typ body small le = (le, plain (local_closed s.state) typ small)
  where
    plain :
        (closed : Bool) (t : ℕ)
        → t < 3
        → bit_and (if closed then bit_and t udx_header_end else t) udx_header_sack ≡ 0
    plain closed zero h = if-both (λ t. bit_and t 4 ≡ 0) closed refl refl
    plain closed (suc zero) h = if-both (λ t. bit_and t 4 ≡ 0) closed refl refl
    plain closed (suc (suc zero)) h = if-both (λ t. bit_and t 4 ≡ 0) closed refl refl
    plain closed (suc (suc (suc t))) h = absurd (omega arith)

state_packet-UpTo :
    (n : ℕ) (s : Stream) (e : Option UdxError)
    → s.ack ≤ n
    → InRange s
    → Made (UpTo n) (create_packet s (state_typ e) [])
state_packet-UpTo n s e le range =
    state_packet-Made (UpTo n) s e range
      (λ typ small none_carried. create_header-UpTo n s typ [] small le)

module _ (f : ℕ → List ℕ) (out : List ℕ) (base : ℕ) where
  abbrev Bounds : ℕ → Stream → Type 0
  Bounds n s = (base ≤ n) × (n ≤ s.ack) × InRange s

  -- From `base` on, the place up to which the stream acknowledges only moves forward.
  abbrev pub Answers : Stream → Type 0
  Answers s = (n : ℕ) × Held (Made (UpTo n)) s × Bounds n s × Receives f out s

  received : Invariant (Receives f out) (IsHonest f) (λ _. Unit) Unit
  received = Keeps-Invariant (ReceiverView f out) (IsHonest f) (receiver_rule f out)

  -- All packets acknowledge no more than the stream has.
  pub Answers-ack :
      (s : Stream)
      → Answers s
      → (base ≤ s.ack) × Held (Made (UpTo s.ack)) s × InRange s × Receives f out s
  Answers-ack s (n, held, (older, le, range), v) =
      (omega (arith, older, le), Held-map s (λ p. Made-map p (UpTo-mono le)) held, range, v)

  pub terminate-Answers : (x : UdxError) (s : Stream) → Answers s → Answers (terminate x s)
  unfolding terminate send_state_packet wake_driver
  terminate-Answers x s v =
      let (older, held, range, w) = Answers-ack s v in
      (
        s.ack,
        terminate-Held (Made (UpTo s.ack)) x s
            (state_packet-UpTo s.ack _ (some x) (omega arith) range) held,
        (older, omega arith, range),
        received.ended x s w,
      )

  remote-Answers :
      (s : Stream)
      → Answers s
      → Answers (terminate closed_by_remote (record s { state = close_remote s.state }))
  remote-Answers s v =
      terminate-Answers closed_by_remote (record s { state = close_remote s.state }) v

  ack_packet-Answers : (now i : ℕ) (s : Stream) → Answers s → Answers (ack_packet now i s)
  ack_packet-Answers now i s (n, held, bounds, v) = (
    n,
    ack_packet-Held (Made (UpTo n)) now i s held,
    ack_packet_keeps (Bounds n) now i s (λ out cells inflight timings stats. bounds),
    received.acked now i s tt v,
  )

  receive_data-Answers :
      (packet : IncomingPacket) (s : Stream)
      → IsHonest f (packet_event packet)
      → has_type packet udx_header_data ≡ true
      → Answers s
      → Answers (receive_data packet s)
  unfolding receive_data send_state_packet wake_driver
  receive_data-Answers packet s h typed v =
      let (older, held, (seq, ack, id), w) = Answers-ack s v in
      let m =
        if leb s.ack packet.header.seq
        then insert packet.header.seq packet s.incoming
        else s.incoming in
      let next = advance (suc (length m)) m s.ack in
      let moved = receive-Delivers f s.incoming s.ack s.read_cursor out packet w.0 (h typed) in
      let forward =
        (advance-Advances m s.ack (
          Holds-NoWrap f m s.read_cursor out
            (record { waits = moved.waits; output = moved.output }))).forward in
      let range : (s.seq < u32_mod) × (next < u32_mod) × (s.remote_id < u32_mod) =
        (seq, advance_fits (suc (length m)) m s.ack ack, id) in
      (
        next,
        send_state_packet-Held (Made (UpTo next)) _
            (state_packet-UpTo next _ s.error (omega arith) range)
            (Held-map s (λ p. Made-map p (UpTo-mono forward)) held),
        (omega (arith, older, forward), omega arith, range),
        (moved, w.1),
      )

  flush_packet-Answers :
      (i : ℕ) (p : Shared) (s : Stream)
      → lookup i s.outgoing ≡ some p
      → Answers s
      → OnSome Answers (flush_packet p s)
  flush_packet-Answers i p s e (n, held, bounds, v) =
      OnSome-both (Held (Made (UpTo n))) (λ t. Bounds n t × Receives f out t) Answers
        (flush_packet p s) (λ t h rest. (n, h, rest.0, rest.1))
        (flush_packet-Held (Made (UpTo n)) i p s e held)
        (flush_packet_keeps (λ t. Bounds n t × Receives f out t) p s
          (λ cells inflight queue. (bounds, v)))

  poll_transmit-Answers : (gso : ℕ) (s : Stream) → Answers s → OnOk Answers (poll_transmit gso s)
  poll_transmit-Answers gso s (n, held, bounds, v) =
      OnOk-both (Held (Made (UpTo n))) (λ t. Bounds n t × Receives f out t) Answers
        (poll_transmit gso s) (λ t h rest. (n, h, rest.0, rest.1))
        (poll_transmit-Held (Made (UpTo n)) gso s held)
        (poll_transmit_keeps (λ t. Bounds n t × Receives f out t) gso s (λ sent. (bounds, v)))

  finish-Answers : (s : Stream) → Answers s → Answers (finish s)
  unfolding finish
  finish-Answers s (n, held, bounds, v) = (n, finish-Held (Made (UpTo n)) s held, bounds, v)

  Answers-Invariant : Invariant Answers (IsHonest f) (λ _. Unit) Unit
  Answers-Invariant = record {
    below = λ packet i h lt. tt;
    selected = λ packet i h typed. tt;
    awake = λ r w d woken s v. v;
    paced = λ cwnd time s h v. v;
    counted = λ n s h v. v;
    moved = λ ack s h v. v;
    drained = λ s v. (v.0, v.1, v.2, (v.3.0, tt));
    acked = λ now i s a v. ack_packet-Answers now i s v;
    received = receive_data-Answers;
    ended = terminate-Answers;
    remote = remote-Answers;
    marked = λ i p s t e v. mark_packet_keeps Answers p s (λ cells inflight. v);
    flushed = flush_packet-Answers;
    transmitted = poll_transmit-Answers;
    finished = finish-Answers;
  }

  pub driver_poll-Answers : (env : Env) (s : Stream) → Answers s → Answers (driver_poll env s).0
  driver_poll-Answers env s v =
      driver_poll_keeps Answers (IsHonest f) (λ _. Unit) Unit Answers-Invariant env s (λ _. tt)
        v.3.1 v
