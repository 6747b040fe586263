-- ===== src/Stream/RoundTrip.antt =====
-- When src/stream.rs takes a round trip time.
use async_udx.Prelude.{
  All-always, true-false, sym, ◌∙◌, if◌then◌else◌, ℕ, ◌*◌, ◌≡◌, refl, List, Option-cases, inl, inr,
  Bool, true, false, not, if-both, ltb, leb, ◌==◌, add64, ◌&&◌,
}
use async_udx.Constants.{millisecond}
use async_udx.Error.{UdxError, closed_by_remote, close_graceful}
use async_udx.Map.{lookup, is_some}
use async_udx.Packet.Types.{new_flags, Shared, Cells, Flags, IncomingPacket, update, packet_len}
use async_udx.Stream.State.{close_remote}
use async_udx.Stream.Defs.{
  Stream, Timings, connect, send_state_packet, terminate, wake_driver, close,
}
use async_udx.Stream.Ack.{ack_packet, handle_remote_ack_for_packet, recalculate}
use async_udx.Stream.Receive.{receive_data}
use async_udx.Stream.Timeouts.{flush_packet}
use async_udx.Stream.Transmit.{poll_transmit}
use async_udx.Stream.Write.{send_data_packet, queue_packet}
use async_udx.Stream.Drive.{finish, drop_handle}
use async_udx.Stream.Run.{
  Step, write, read, drive, closing, dropping, deliver, take_messages, packet_sent, forget_stream,
  end_socket,
}
use async_udx.Stream.Invariant.Calls.{poll_transmit_keeps, poll_write_keeps, poll_read_keeps}
use async_udx.Stream.Invariant.{Invariant, OnSome, OnOk}
use async_udx.Stream.Invariant.Driver.{driver_poll_keeps}

abbrev pub first_timings : Timings
first_timings = record { rto = 1000 * millisecond; rttvar = 0; srtt = 0 }

-- The timer does not fire in this step.
unfoldable pub InTime : {s t : Stream} → Step s t → Type 0
InTime (drive env s) = env.fired ≡ false
InTime _ = Unit

-- A run in which no timer fires.
pub data Calm (s : Stream) : Stream → Type 0 where
  unmoved : Calm s s
  goes_on : {t u : Stream} → Calm s t → (step : Step t u) → InTime step → Calm s u

-- No packet was ever counted as sent again, and no round trip time was taken.
abbrev NoSample : Stream → Type 0
NoSample s = ((cell : ℕ) → (s.cells cell).transmits ≡ 0) × (s.timings ≡ first_timings)

update_transmits :
    (cells : Cells) (a : ℕ) (f : Flags)
    → ((cell : ℕ) → (cells cell).transmits ≡ 0)
    → f.transmits ≡ 0
    → (cell : ℕ) → (update cells a f cell).transmits ≡ 0
update_transmits cells a f h e cell =
    if-both (λ (g : Flags). g.transmits ≡ 0) (a == cell) e (h cell)

recalculate_first : (now : ℕ) (f : Flags) (t : Timings) → f.transmits ≡ 0 → recalculate now f t ≡ t
unfolding recalculate
recalculate_first now f t e = rw e (never (is_some f.time_sent) _)
  where
    never : (sent : Bool) (t1 : Timings) → (if sent && false then t1 else t) ≡ t
    never true t1 = refl
    never false t1 = refl

ack_packet-NoSample : (now i : ℕ) (s : Stream) → NoSample s → NoSample (ack_packet now i s)
unfolding ack_packet handle_remote_ack_for_packet
ack_packet-NoSample now i s (none_again, first) = elim (Option-cases (lookup i s.outgoing)) [
  | inl e ↦ rw (e, ack_packet) (none_again, first)
  | inr (p, e) ↦
      rw (e, ack_packet)
        (
          update_transmits s.cells p.cell _ none_again (none_again p.cell),
          recalculate_first now (s.cells p.cell) s.timings (none_again p.cell) ∙ first,
        )
]

flush_packet-NoSample : (p : Shared) (s : Stream) → NoSample s → OnSome NoSample (flush_packet p s)
unfolding flush_packet
flush_packet-NoSample p s v =
    let flushed = update_transmits s.cells p.cell _ v.0 (v.0 p.cell) in
    if-both (OnSome NoSample) (not (s.cells p.cell).waiting) v (
      if-both (OnSome NoSample) (ltb s.cwnd (add64 s.inflight (packet_len p.packet))) tt
        (flushed, v.1))

receive_data-NoSample :
    (packet : IncomingPacket) (s : Stream) → NoSample s → NoSample (receive_data packet s)
unfolding receive_data send_state_packet wake_driver
receive_data-NoSample packet s v = v

terminate-NoSample : (x : UdxError) (s : Stream) → NoSample s → NoSample (terminate x s)
unfolding terminate send_state_packet wake_driver
terminate-NoSample x s v = v

remote-NoSample :
    (s : Stream)
    → NoSample s
    → NoSample (terminate closed_by_remote (record s { state = close_remote s.state }))
remote-NoSample s v =
    terminate-NoSample closed_by_remote (record s { state = close_remote s.state }) v

poll_transmit-NoSample : (gso : ℕ) (s : Stream) → NoSample s → OnOk NoSample (poll_transmit gso s)
poll_transmit-NoSample gso s v = poll_transmit_keeps NoSample gso s (λ sent. v)

finish-NoSample : (s : Stream) → NoSample s → NoSample (finish s)
unfolding finish
finish-NoSample s v = v

NoSample-Invariant : Invariant NoSample (λ _. Unit) (λ _. Unit) ⊥
NoSample-Invariant = record {
  below = λ packet i h lt. tt;
  selected = λ packet i h typed. tt;
  awake = λ r w d woken s v. v;
  paced = λ cwnd time s h v. v;
  counted = λ n s h v. v;
  moved = λ ack s h v. v;
  drained = λ s v. v;
  acked = λ now i s a v. ack_packet-NoSample now i s v;
  received = λ packet s h typed v. receive_data-NoSample packet s v;
  ended = terminate-NoSample;
  remote = remote-NoSample;
  marked = λ i p s t e v. absurd t;
  flushed = λ i p s e v. flush_packet-NoSample p s v;
  transmitted = poll_transmit-NoSample;
  finished = finish-NoSample;
}

send_data_packet-NoSample :
    (buf : List ℕ) (s : Stream) → NoSample s → NoSample (send_data_packet buf s).0
unfolding send_data_packet queue_packet wake_driver
send_data_packet-NoSample buf s v =
    let queued = update_transmits s.cells s.next_cell new_flags v.0 refl in
    if-both (λ (r : Stream × ℕ). NoSample r.0) _ v (queued, v.1)

Step-NoSample : {s t : Stream} (step : Step s t) → InTime step → NoSample s → NoSample t
unfolding InTime close drop_handle
Step-NoSample (write waker buf s fits) h v =
    poll_write_keeps NoSample waker buf s send_data_packet-NoSample (λ t w. w) v
Step-NoSample (read waker remaining s) h v = poll_read_keeps NoSample waker remaining s (λ w. v)
Step-NoSample (drive env s) h v =
    driver_poll_keeps NoSample (λ _. Unit) (λ _. Unit) ⊥ NoSample-Invariant env s
      (λ e. true-false (sym e ∙ h)) (All-always (λ _. tt) s.recv_rx) v
Step-NoSample (closing tx s) h v = terminate-NoSample close_graceful s v
Step-NoSample (dropping n s) h v =
    if-both NoSample (leb n 2) (terminate-NoSample close_graceful s v) v
Step-NoSample (deliver event s) h v = v
Step-NoSample (take_messages left s) h v = v
Step-NoSample (packet_sent cell time s) h v = (update_transmits s.cells cell _ v.0 (v.0 cell), v.1)
Step-NoSample (forget_stream s) h v = v
Step-NoSample (end_socket s) h v = v

Calm-NoSample :
    (now dest remote_id local_id : ℕ) {s : Stream}
    → Calm (connect now dest remote_id local_id) s
    → NoSample s
unfolding connect
Calm-NoSample now dest remote_id local_id unmoved = (λ cell. refl, refl)
Calm-NoSample now dest remote_id local_id (goes_on r step h) =
    Step-NoSample step h (Calm-NoSample now dest remote_id local_id r)

-- As long as no timer fires, a stream takes no round trip time: whatever is written, sent, acknowledged
-- and read, its timeout stays at the first value of one second, and its estimates at 0.
pub Calm-timings :
    (now dest remote_id local_id : ℕ) (s : Stream)
    → Calm (connect now dest remote_id local_id) s
    → s.timings ≡ first_timings
Calm-timings now dest remote_id local_id s r = (Calm-NoSample now dest remote_id local_id r).1
