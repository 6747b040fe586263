-- ===== src/Socket/Transmit.antt =====
-- `UdxSocketInner::poll_transmit` of src/socket.rs: messages from the streams become transmits, and a
-- batch of transmits goes to the system.
use async_udx.Prelude.{
  ℕ, ◌+◌, ◌-◌, ◌*◌, List, [], ◌∷◌, ◌++◌, map, Option, none, some, Bool, true, false, if◌then◌else◌,
  ltb, min, add64, length, take, drop,
}
use async_udx.Constants.{millisecond}
use async_udx.Error.{ErrorKind, interrupted, IoError, Outcome, ok, err, panic}
use async_udx.Map.{remove}
use async_udx.Packet.Types.{Transmit, num_segments, Shared, Cells, into_transmit, is_empty}
use async_udx.Packet.Set.{PacketSet, iter_shared, to_transmit}
use async_udx.Socket.Events.{EventOutgoing, transmit, transmit_dgram, stream_dropped}
use async_udx.Socket.Defs.{Socket, SocketStats}
use async_udx.Socket.Receive.{go_on}

-- `SocketStats::track_tx` at the time `now`, less what it prints. The segment size of a set of
-- packets is the length of its packets, which is not 0.
unfoldable pub track_tx : ℕ → Transmit → SocketStats → SocketStats
track_tx now t s =
    let s1 = record s {
      tx_bytes = add64 s.tx_bytes (length t.contents);
      tx_transmits = add64 s.tx_transmits 1;
      tx_dgrams = add64 s.tx_dgrams (num_segments t);
      tx_window_bytes = add64 s.tx_window_bytes (length t.contents);
      tx_window_dgrams = add64 s.tx_window_dgrams (num_segments t);
    } in
    restart s1 (started s.tx_window_start)
  where
    started : Option ℕ → ℕ
    started none = now
    started (some start) = start

    restart : SocketStats → ℕ → SocketStats
    restart s start =
        if ltb (1000 * millisecond) (now - start)
        then record s { tx_window_bytes = 0; tx_window_dgrams = 0; tx_window_start = some now }
        else record s { tx_window_start = some start }

unfoldable pub track_all : ℕ → List Transmit → SocketStats → SocketStats
track_all now [] s = s
track_all now (t ∷ ts) s = track_all now ts (track_tx now t s)

-- What `UdpSocket::poll_send` answers.
pub data SendAnswer : Type 0 where
  sent : ℕ → SendAnswer
  send_pending : SendAnswer
  send_failed : IoError → SendAnswer

-- What one poll finds outside the socket: the clock, `BATCH_SIZE`, the atomics of the packets of a
-- set, and what the system answers when there are these transmits to take some of the first from.
pub record SendEnv : Type 0 where
  pub now : ℕ
  pub batch_size : ℕ
  pub cells : PacketSet → Cells
  pub answer : List Transmit → SendAnswer

abbrev pub push_set : PacketSet → Outcome Transmit → Socket → Socket × Outcome (Unit {0})
push_set set (ok t) s = (
  record s {
    outgoing_transmits = s.outgoing_transmits ++ t ∷ [];
    outgoing_packet_sets = s.outgoing_packet_sets ++ set ∷ [];
  },
  ok tt,
)
push_set set (err e) s = (s, err e)
push_set set panic s = (s, panic)

-- The match on one message.
unfoldable pub take_event : SendEnv → EventOutgoing → Socket → Socket × Outcome (Unit {0})
take_event env (stream_dropped local_id) s =
    (record s { streams = remove local_id s.streams }, ok tt)
take_event env (transmit_dgram dgram) s =
    (record s { outgoing_transmits = s.outgoing_transmits ++ into_transmit dgram ∷ [] }, ok tt)
take_event env (transmit set) s = push_set set (to_transmit (env.cells set) set) s

-- `while self.outgoing_transmits.len() < BATCH_SIZE`, over what the channel holds. It answers
-- `send_rx_pending`.
unfoldable pub fill : SendEnv → List EventOutgoing → Socket → Socket × Outcome Bool
fill env [] s =
    if ltb (length s.outgoing_transmits) env.batch_size
    then (record s { send_rx = [] }, ok true)
    else (record s { send_rx = [] }, ok false)
fill env (event ∷ events) s =
    let rest = go_on (take_event env event s) (λ _. fill env events) in
    if ltb (length s.outgoing_transmits) env.batch_size
    then rest
    else (record s { send_rx = event ∷ events }, ok false)

-- `packet.time_sent.set_now()` for the shared packets of the sets.
abbrev pub stamp : ℕ → List PacketSet → List (Shared × ℕ)
stamp now [] = []
stamp now (set ∷ sets) = map (λ p. (p, now)) (iter_shared set.packets) ++ stamp now sets

-- The system has taken `n` transmits: they leave the queue, and as many packet sets with them.
-- Draining more than there are panics.
unfoldable pub sent_off : ℕ → ℕ → Bool → Socket → Socket × Outcome Bool
sent_off now n send_rx_pending s =
    let sets = min n (length s.outgoing_packet_sets) in
    if ltb (length s.outgoing_transmits) n then (s, panic) else (
      record s {
        outgoing_transmits = drop n s.outgoing_transmits;
        stats = track_all now (take n s.outgoing_transmits) s.stats;
        outgoing_packet_sets = drop sets s.outgoing_packet_sets;
        stamped = s.stamped ++ stamp now (take sets s.outgoing_packet_sets);
      },
      ok (if send_rx_pending then false else true),
    )

-- An interrupted send sets the timer that holds back the next ones.
unfoldable pub send_error : ℕ → IoError → ErrorKind → Socket → Socket × Outcome Bool
send_error now e interrupted s =
    (record s { send_overflow_timer = some (now + 20 * millisecond) }, ok false)
send_error now e _ s = (s, err e)

-- The call of the system, once the queue is filled.
unfoldable pub send_batch : SendEnv → Bool → Socket → Socket × Outcome Bool
send_batch env send_rx_pending s =
    if is_empty s.outgoing_transmits
    then (s, ok false)
    else elim (env.answer s.outgoing_transmits) [
      | send_pending ↦ (s, ok false)
      | send_failed e ↦ send_error env.now e e.kind s
      | sent n ↦ sent_off env.now n send_rx_pending s
    ]

-- The loop never comes to a second round.
unfoldable pub poll_transmit : SendEnv → Socket → Socket × Outcome Bool
poll_transmit env s = go_on (fill env s.send_rx s) (send_batch env)
