-- ===== src/Stream/Timeouts.antt =====
-- The retransmission timer of src/stream.rs, and the packets that wait to be sent again.
use async_udx.Prelude.{
  ℕ, zero, suc, ◌+◌, ◌-◌, ◌*◌, ◌/◌, [], ◌∷◌, ◌++◌, Option, none, some, Bool, true, false, not, ◌||◌,
  if◌then◌else◌, ltb, ◌==◌, max, add64, sub64,
}
use async_udx.Constants.{udx_mtu, udx_max_transmits, instant_limit}
use async_udx.Error.{IoError, timed_out, Outcome, ok, err, panic}
use async_udx.Map.{lookup}
use async_udx.Packet.Types.{Shared, shared, update, packet_len}
use async_udx.Stream.Defs.{Stream}

abbrev pub max_retransmits : IoError
max_retransmits = record { kind = timed_out; message = "Max retransmits reached without ack" }

-- The body of the loop for one packet: `none` where its transmits are used up.
unfoldable pub mark_packet : Shared → Stream → Option Stream
mark_packet p s =
    let f = s.cells p.cell in
    if f.waiting
    then some s
    else if ltb udx_max_transmits f.transmits
    then none
    else some (record s {
      cells = update s.cells p.cell (record f { transmits = f.transmits + 1; waiting = true });
      inflight = sub64 s.inflight (packet_len p.packet);
    })

unfoldable pub mark_one : ℕ → Stream → Option Stream
mark_one i s = elim (lookup i s.outgoing) [ none ↦ some s | some packet ↦ mark_packet packet s ]

-- `for i in self.remote_acked..self.seq`, with the `n` numbers that are left.
unfoldable pub mark_lost : ℕ → ℕ → Stream → Stream × Outcome (Unit {0})
mark_lost zero i s = (s, ok tt)
mark_lost (suc n) i s = elim (mark_one i s) [
  | none ↦ (s, err max_retransmits)
  | some s1 ↦ mark_lost n (i + 1) s1
]

-- The timer has fired and packets are out: set it again, to `Instant::now().checked_add(2 * rto).unwrap()`,
-- halve the window, and take all for lost.
unfoldable pub on_timeout : ℕ → Stream → Stream × Outcome (Unit {0})
on_timeout now s =
    let shrunk = record s {
      rto_timeout = now + 2 * s.timings.rto;
      cwnd = max udx_mtu (s.cwnd / 2);
    } in
    if ltb (now + 2 * s.timings.rto) instant_limit
    then mark_lost (s.seq - s.remote_acked) s.remote_acked shrunk
    else (s, panic)

-- `fired` is what polling the timer answers.
unfoldable pub poll_check_timeouts : Bool → ℕ → Stream → Stream × Outcome (Unit {0})
poll_check_timeouts fired now s =
    if not fired || s.remote_acked == s.seq then (s, ok tt) else on_timeout now s

-- One packet of `flush_waiting_packets`: `none` where the window is full, at which the loop ends.
unfoldable pub flush_packet : Shared → Stream → Option Stream
flush_packet p s =
    let f = s.cells p.cell in
    if not f.waiting
    then some s
    else if ltb s.cwnd (add64 s.inflight (packet_len p.packet))
    then none
    else some (record s {
      cells = update s.cells p.cell (record f { waiting = false });
      inflight = add64 s.inflight (packet_len p.packet);
      send_queue = s.send_queue ++ shared p ∷ [];
    })

unfoldable pub flush_one : ℕ → Stream → Option Stream
flush_one i s = elim (lookup i s.outgoing) [ none ↦ some s | some packet ↦ flush_packet packet s ]

unfoldable pub flush_loop : ℕ → ℕ → Stream → Stream
flush_loop zero i s = s
flush_loop (suc n) i s = elim (flush_one i s) [ none ↦ s | some s1 ↦ flush_loop n (i + 1) s1 ]

unfoldable pub flush_waiting_packets : Stream → Stream
flush_waiting_packets s = flush_loop (s.seq - s.remote_acked) s.remote_acked s
