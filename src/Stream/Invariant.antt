-- ===== src/Stream/Invariant.antt =====
-- A rule for invariants of a stream of src/stream.rs: what keeps an invariant through the changes that
-- the code is made of keeps it through the messages from the socket.
pub mod Driver
pub mod Calls
use async_udx.Prelude.{
  u32_mod, usize_mod, add32-lt, add64-lt, ◌<◌, ◌≤◌, refl, arith, max, add32, ltb, ltb→lt, ltb→le,
  leb→lt, Bool-cases, ℕ, zero, suc, ◌+◌, ◌-◌, ◌≡◌, List, [], ◌∷◌, Option, none, some, true, All,
  Option-cases, inl, inr, leb, if-both, if-cases, if◌then◌else◌, add64,
}
use async_udx.Constants.{instant_limit, ssthresh, udx_header_data, udx_header_end, udx_header_sack}
use async_udx.Error.{UdxError, Outcome, ok, err, panic, closed_by_remote}
use async_udx.Map.{lookup}
use async_udx.Packet.Types.{Shared, IncomingPacket, has_type}
use async_udx.Socket.Events.{EventIncoming, packet_event}
use async_udx.Stream.State.{close_remote}
use async_udx.Stream.Defs.{Stream, terminate}
use async_udx.Stream.Ack.{
  handle_remote_ack_for_packet, ack_packet, ack_loop, wake_writer, reset_timeout,
  handle_incoming_max_remote_ack, ack_range, ack_ranges, handle_incoming_sacks, grow_cwnd,
}
use async_udx.Stream.Receive.{receive_data, receive_end, process_packet, handle_incoming, passes}
use async_udx.Stream.Timeouts.{mark_packet, flush_packet}
use async_udx.Stream.Transmit.{poll_transmit}
use async_udx.Stream.Drive.{incoming_loop, poll_incoming, finish}

abbrev pub OnSome : (Stream → Type 0) → Option Stream → Type 0
OnSome P none = Unit
OnSome P (some s) = P s

abbrev pub OnOk : (Stream → Type 0) → Outcome Stream → Type 0
OnOk P (ok s) = P s
OnOk P (err e) = Unit
OnOk P panic = Unit

-- `P` is what holds of every message from the socket, `A` what holds of every number that is
-- acknowledged, and `T` what holds where the timer has fired.
pub record Invariant (R : Stream → Type 0) (P : EventIncoming → Type 0) (A : ℕ → Type 0)
    (T : Type 0) : Type 0 where
  pub below :
      (packet : IncomingPacket) (i : ℕ) → P (packet_event packet) → i < packet.header.ack → A i
  pub selected :
      (packet : IncomingPacket) (i : ℕ)
      → P (packet_event packet)
      → has_type packet udx_header_sack ≡ true
      → A i
  pub awake :
      (r w d : Option ℕ) (woken : List ℕ) (s : Stream)
      → R s
      → R (record s { read_waker = r; write_waker = w; drive_waker = d; woken = woken })
  pub paced :
      (cwnd time : ℕ) (s : Stream)
      → (s.cwnd < usize_mod → cwnd < usize_mod)
      → R s
      → R (record s { cwnd = cwnd; rto_timeout = time })
  pub counted :
      (n : ℕ) (s : Stream)
      → n < usize_mod
      → R s
      → R (record s { stats = record s.stats { rx_packets = n } })
  pub moved : (ack : ℕ) (s : Stream) → ack < u32_mod → R s → R (record s { remote_acked = ack })
  pub drained : (s : Stream) → R s → R (record s { recv_rx = [] })
  pub acked : (now i : ℕ) (s : Stream) → A i → R s → R (ack_packet now i s)
  pub received :
      (packet : IncomingPacket) (s : Stream)
      → P (packet_event packet)
      → has_type packet udx_header_data ≡ true
      → R s
      → R (receive_data packet s)
  pub ended : (x : UdxError) (s : Stream) → R s → R (terminate x s)
  pub remote :
      (s : Stream)
      → R s
      → R (terminate closed_by_remote (record s { state = close_remote s.state }))
  pub marked :
      (i : ℕ) (p : Shared) (s : Stream)
      → T
      → lookup i s.outgoing ≡ some p
      → R s
      → OnSome R (mark_packet p s)
  pub flushed :
      (i : ℕ) (p : Shared) (s : Stream)
      → lookup i s.outgoing ≡ some p
      → R s
      → OnSome R (flush_packet p s)
  pub transmitted : (gso : ℕ) (s : Stream) → R s → OnOk R (poll_transmit gso s)
  pub finished : (s : Stream) → R s → R (finish s)

ack_packet_remote_acked :
    (now i : ℕ) (s : Stream) → (ack_packet now i s).remote_acked ≡ s.remote_acked
unfolding ack_packet handle_remote_ack_for_packet
ack_packet_remote_acked now i s = elim (Option-cases (lookup i s.outgoing)) [
  | inl e ↦ rw (e, ack_packet) refl
  | inr (p, e) ↦ rw (e, ack_packet) refl
]

add32-le : (a : ℕ) → add32 a 1 ≤ suc a
unfolding add32
add32-le a = omega arith

module _ (R : Stream → Type 0) (P : EventIncoming → Type 0) (A : ℕ → Type 0) (T : Type 0)
    (inv : Invariant R P A T) where
  ack_loop-R :
      (now n : ℕ) (s : Stream)
      → ((i : ℕ) → i < s.remote_acked + n → A i)
      → R s
      → R (ack_loop now n s)
  unfolding ack_loop
  ack_loop-R now zero s h v = v
  ack_loop-R now (suc n) s h v =
      let moved = record s { remote_acked = add32 s.remote_acked 1 } in
      ack_loop-R now n _
        (λ i lt. h i (
          omega
            (arith, lt, add32-le s.remote_acked, ack_packet_remote_acked now s.remote_acked moved)))
        (inv.acked now s.remote_acked _ (h s.remote_acked (omega arith))
          (inv.moved _ s (add32-lt s.remote_acked 1) v))

  wake_writer-R : (s : Stream) → R s → R (wake_writer s)
  unfolding wake_writer
  wake_writer-R s v = if-both R _ (inv.awake s.read_waker none s.drive_waker _ s v) v

  handle_max-R :
      (now ack : ℕ) (s : Stream)
      → ((i : ℕ) → i < ack → A i)
      → R s
      → R (handle_incoming_max_remote_ack now ack s).0
  unfolding handle_incoming_max_remote_ack reset_timeout
  handle_max-R now ack s h v =
      if-cases (λ (r : Stream × Outcome (Unit {0})). R r.0) (leb ack s.remote_acked) (λ _. v)
        (λ more.
          let moved = wake_writer (ack_loop now (ack - s.remote_acked) s) in
          let w = wake_writer-R _ (
            ack_loop-R now (ack - s.remote_acked) s
              (λ i lt. h i (omega (arith, lt, leb→lt _ _ more))) v) in
          if-both (λ (r : Stream × Outcome (Unit {0})). R r.0)
            (ltb (now + moved.timings.rto) instant_limit) (inv.paced _ _ moved (λ h. h) w) w)

  ack_range-R : (now n i : ℕ) (s : Stream) → ((i : ℕ) → A i) → R s → R (ack_range now n i s)
  unfolding ack_range
  ack_range-R now zero i s h v = v
  ack_range-R now (suc n) i s h v = ack_range-R now n (i + 1) _ h (inv.acked now i s (h i) v)

  ack_ranges-R :
      (now : ℕ) (rs : List (ℕ × ℕ)) (s : Stream) → ((i : ℕ) → A i) → R s → R (ack_ranges now rs s)
  unfolding ack_ranges
  ack_ranges-R now [] s h v = v
  ack_ranges-R now ((first, last) ∷ rs) s h v =
      ack_ranges-R now rs _ h (ack_range-R now (last - first) first s h v)

  receive_end-R : (packet : IncomingPacket) (s : Stream) → R s → R (receive_end packet s)
  unfolding receive_end
  receive_end-R packet s v = if-both R (has_type packet udx_header_end) (inv.remote s v) v

  grow_cwnd-R : (ack : ℕ) (s : Stream) → R s → R (grow_cwnd ack s)
  unfolding grow_cwnd
  grow_cwnd-R ack s v =
      inv.paced _ s.rto_timeout s
        (λ h.
          if-both (λ n. n < usize_mod) (ltb s.seq ack) h
            (if-both (λ n. n < usize_mod) (ltb s.remote_acked ack)
              (if-both (λ n. n < usize_mod) (ltb s.cwnd ssthresh) (add64-lt s.cwnd _)
                (add64-lt s.cwnd _))
              h))
        v

  process_packet-R :
      (now : ℕ) (packet : IncomingPacket) (s : Stream)
      → P (packet_event packet)
      → R s
      → R (process_packet now packet s)
  unfolding process_packet handle_incoming_sacks
  process_packet-R now packet s h v =
      let s1 = record s { stats = record s.stats { rx_packets = add64 s.stats.rx_packets 1 } } in
      let s2 =
        if has_type packet udx_header_sack then handle_incoming_sacks now packet s1 else s1 in
      let counted : R s1 = inv.counted _ s (add64-lt s.stats.rx_packets 1) v in
      let acked : R s2 =
        if-cases R (has_type packet udx_header_sack)
          (λ d. ack_ranges-R now _ s1 (λ i. inv.selected packet i h d) counted) (λ _. counted) in
      let ended = receive_end-R packet s2 acked in
      grow_cwnd-R packet.header.ack _ (
        if-cases R (has_type packet udx_header_data) (λ d. inv.received packet _ h d ended)
          (λ _. ended))

  handle_incoming-R :
      (now : ℕ) (packet : IncomingPacket) (s : Stream)
      → P (packet_event packet)
      → R s
      → R (handle_incoming now packet s)
  unfolding handle_incoming
  handle_incoming-R now packet s h v =
      if-both R (passes s.on_firewall packet.source) (process_packet-R now packet s h v) v

  incoming_loop-R :
      (now : ℕ) (events : List EventIncoming) (ack : ℕ) (s : Stream)
      → All P events
      → R s
      → R (incoming_loop now events ack s).0
  unfolding incoming_loop
  incoming_loop-R now [] ack s h v = v
  incoming_loop-R now (packet_event packet ∷ events) ack s h v =
      incoming_loop-R now events _ _ h.1 (handle_incoming-R now packet s h.0 v)

  incoming_loop-A :
      (now : ℕ) (events : List EventIncoming) (ack : ℕ) (s : Stream)
      → ((i : ℕ) → i < ack → A i)
      → All P events
      → (i : ℕ) → i < (incoming_loop now events ack s).1
      → A i
  unfolding incoming_loop
  incoming_loop-A now [] ack s old h = old
  incoming_loop-A now (packet_event packet ∷ events) ack s old h =
      incoming_loop-A now events (max ack packet.header.ack) _ both h.1
    where
      both : (i : ℕ) → i < max ack packet.header.ack → A i
      both i lt = elim (Bool-cases (ltb i ack)) [
        | inl below ↦ old i (ltb→lt _ _ below)
        | inr above ↦ inv.below packet i h.0 (omega (arith, lt, ltb→le _ _ above))
      ]

  pub poll_incoming_keeps :
      (now : ℕ) (s : Stream) → All P s.recv_rx → R s → R (poll_incoming now s).0
  unfolding poll_incoming
  poll_incoming_keeps now s h v =
      let looped =
        incoming_loop-R now s.recv_rx 0 (record s { recv_rx = [] }) h (inv.drained s v) in
      let acks =
        incoming_loop-A now s.recv_rx 0 (record s { recv_rx = [] }) (λ i lt. absurd (omega arith))
          h in
      if-both (λ (r : Stream × Outcome (Unit {0})). R r.0) s.recv_open
        (handle_max-R now _ _ acks looped) looped
