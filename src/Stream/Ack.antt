-- ===== src/Stream/Ack.antt =====
-- Acknowledgements in src/stream.rs: round trip times, acked packets, SACK ranges, and the windows.
-- `now` is the time at which the code reads the clock.
use async_udx.Prelude.{
  ℕ, zero, suc, ◌+◌, ◌-◌, ◌*◌, ◌/◌, List, [], ◌∷◌, Option, none, some, true, ◌&&◌, if◌then◌else◌,
  ltb, leb, ◌==◌, max, add32, add64, sub64, length, length-drop, take, drop, ◌≤◌, ◌<◌, ◌≡◌, ◌≢◌,
  refl, arith,
}
use native.Mathlib.Decide.{dec_lt}
use async_udx.Error.{Outcome, ok, panic}
use async_udx.Constants.{udx_clock_granularity_ms, udx_mtu, ssthresh, millisecond, instant_limit}
use async_udx.Map.{lookup, remove, is_some}
use async_udx.Packet.Bytes.{slice, read_u32_le}
use async_udx.Packet.Types.{Shared, Flags, update, packet_len, data_len, IncomingPacket}
use async_udx.Stream.Defs.{Stream, Timings, wake}

-- The first round trip time sample, and a later one.
unfoldable pub first_sample : ℕ → Timings → Timings
first_sample rtt t = record {
  srtt = rtt;
  rttvar = rtt / 2;
  rto = rtt + max udx_clock_granularity_ms (4 * (rtt / 2));
}

unfoldable pub next_sample : ℕ → Timings → Timings
next_sample rtt t =
    let delta = if ltb rtt t.srtt then t.srtt - rtt else rtt - t.srtt in
    record t { rttvar = (3 * t.rttvar + delta) / 4; srtt = (7 * t.srtt + rtt) / 8 }

unfoldable pub sample : ℕ → Timings → Timings
unfolding first_sample next_sample
sample rtt t =
    let t1 = if t.srtt == 0 then first_sample rtt t else next_sample rtt t in
    record t1 {
      rto = max (1000 * millisecond) (t1.srtt + max udx_clock_granularity_ms (4 * t1.rttvar));
    }

abbrev elapsed : ℕ → Option ℕ → ℕ
elapsed now none = 0
elapsed now (some time) = now - time

-- A sample is taken where the packet was sent and `transmits` is 1.
unfoldable pub recalculate : ℕ → Flags → Timings → Timings
recalculate now f t =
    if is_some f.time_sent && f.transmits == 1 then sample (elapsed now f.time_sent) t else t

unfoldable pub handle_remote_ack_for_packet : ℕ → Shared → Stream → Stream
handle_remote_ack_for_packet now p s =
    let f = s.cells p.cell in
    record s {
      inflight = if f.waiting then s.inflight else sub64 s.inflight (packet_len p.packet);
      stats = record s.stats {
        inflight_bytes = sub64 s.stats.inflight_bytes (data_len p.packet);
        inflight_packets = sub64 s.stats.inflight_packets 1;
      };
      timings = recalculate now f s.timings;
      cells = update s.cells p.cell (record f { skip = true });
    }

-- `self.outgoing.remove(&i)`, and the handling of the packet that this gives.
unfoldable pub ack_packet : ℕ → ℕ → Stream → Stream
ack_packet now i s =
    let s1 = record s { outgoing = remove i s.outgoing } in
    elim (lookup i s.outgoing) [
      | none ↦ s1
      | some packet ↦ handle_remote_ack_for_packet now packet s1
    ]

-- The `while` loop of `handle_incoming_max_remote_ack`, for the `n` rounds that it makes.
unfoldable pub ack_loop : ℕ → ℕ → Stream → Stream
ack_loop now zero s = s
ack_loop now (suc n) s =
    let i = s.remote_acked in
    ack_loop now n (ack_packet now i (record s { remote_acked = add32 i 1 }))

unfoldable pub wake_writer : Stream → Stream
wake_writer s =
    if leb (add64 s.inflight udx_mtu) s.cwnd
    then record s { write_waker = none; woken = wake s.write_waker s.woken }
    else s

-- The timer is set to `Instant::now().checked_add(rto).unwrap()`.
unfoldable pub reset_timeout : ℕ → Stream → Stream × Outcome (Unit {0})
reset_timeout now s =
    if ltb (now + s.timings.rto) instant_limit
    then (record s { rto_timeout = now + s.timings.rto }, ok tt)
    else (s, panic)

unfoldable pub handle_incoming_max_remote_ack : ℕ → ℕ → Stream → Stream × Outcome (Unit {0})
unfolding reset_timeout
handle_incoming_max_remote_ack now ack s =
    let acked = ack_loop now (ack - s.remote_acked) s in
    if leb ack s.remote_acked then (s, ok tt) else reset_timeout now (wake_writer acked)

-- The value of an option that is there.
unwrap : (o : Option ℕ) → o ≢ none → ℕ
unwrap none there = absurd (there refl)
unwrap (some n) there = n

four_read : (xs : List ℕ) → 4 ≤ length xs → read_u32_le (take 4 xs) ≢ none
unfolding read_u32_le
four_read [] h = absurd (omega arith)
four_read (a ∷ []) h = absurd (omega arith)
four_read (a ∷ b ∷ []) h = absurd (omega arith)
four_read (a ∷ b ∷ c ∷ []) h = absurd (omega arith)
four_read (a ∷ b ∷ c ∷ d ∷ xs) h = λ e. cc

pub slice_reads :
    (i : ℕ) (buf : List ℕ) → i + 4 ≤ length buf → read_u32_le (slice i (i + 4) buf) ≢ none
slice_reads i buf inside =
    let four : i + 4 - i ≡ 4 = omega arith in
    rw four (four_read (drop i buf) (omega (arith, length-drop i buf)))

-- `read_u32_le(&buf[i..(i + 4)])`, for a slice that is inside `buf`: there are four bytes then.
word : (i : ℕ) (buf : List ℕ) → i + 4 ≤ length buf → ℕ
word i buf inside = unwrap (read_u32_le (slice i (i + 4) buf)) (slice_reads i buf inside)

-- One round of the `while` loop of `handle_incoming_sacks`: both words are inside `buf` by the loop's
-- guard, so neither slice panics. `rest` is what the other rounds read.
unfoldable pub next_range :
    (i : ℕ) (buf : List ℕ) → Dec (i + 8 < length buf) → List (ℕ × ℕ) → List (ℕ × ℕ)
unfolding word unwrap read_u32_le
next_range i buf (yes more) rest =
    (word i buf (omega (arith, more)), word (i + 4) buf (omega (arith, more))) ∷ rest
next_range i buf (no done) rest = []

-- The ranges that the loop reads, on fuel for its rounds.
unfoldable pub sack_ranges : ℕ → ℕ → List ℕ → List (ℕ × ℕ)
unfolding next_range dec_lt
sack_ranges zero i buf = []
sack_ranges (suc n) i buf =
    let rest = sack_ranges n (i + 8) buf in next_range i buf (dec_lt (i + 8) (length buf)) rest

-- `for i in start..end`
unfoldable pub ack_range : ℕ → ℕ → ℕ → Stream → Stream
ack_range now zero i s = s
ack_range now (suc n) i s = ack_range now n (i + 1) (ack_packet now i s)

unfoldable pub ack_ranges : ℕ → List (ℕ × ℕ) → Stream → Stream
ack_ranges now [] s = s
ack_ranges now ((first, last) ∷ rs) s = ack_ranges now rs (ack_range now (last - first) first s)

unfoldable pub handle_incoming_sacks : ℕ → IncomingPacket → Stream → Stream
handle_incoming_sacks now packet s = ack_ranges now (sack_ranges (length packet.buf) 0 packet.buf) s

-- The congestion window's growth at the end of `handle_incoming`.
unfoldable pub grow_cwnd : ℕ → Stream → Stream
grow_cwnd ack s =
    let grown =
      if ltb s.cwnd ssthresh
      then add64 s.cwnd udx_mtu
      else add64 s.cwnd (max (udx_mtu * udx_mtu / s.cwnd) 1) in
    record s {
      cwnd = if ltb s.seq ack then s.cwnd else if ltb s.remote_acked ack then grown else s.cwnd;
    }
