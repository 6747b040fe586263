-- ===== src/Stream/Defs.antt =====
-- `UdxStreamInner` of src/stream.rs: its fields, how a stream starts, the packets that it makes, and
-- how it is told to end.
-- A waker, and the sender that `close` leaves behind, are numbers; `woken` and `signalled` list those
-- that were used, newest first. `send_tx` and `recv_rx` are what the two channels hold.
use async_udx.Prelude.{
  ℕ, ◌+◌, ◌*◌, List, [], ◌∷◌, ◌++◌, Option, none, some, Bool, true, ◌&&◌, if◌then◌else◌, bit_and,
  bit_or, add64,
}
use async_udx.Constants.{udx_header_end, udx_mtu, millisecond}
use async_udx.Error.{UdxError, close_graceful}
use async_udx.Map.{is_some}
use async_udx.Packet.Header.{Header}
use async_udx.Packet.Types.{
  SocketAddr, Packet, PacketRef, owned, Shared, Cells, new_flags, new_packet, IncomingPacket,
  is_empty,
}
use async_udx.Socket.Events.{EventIncoming, EventOutgoing}
use async_udx.Stream.State.{StreamState, opened, close_local, local_closed, closed}

pub record StreamStats : Type 0 where
  pub tx_packets : ℕ
  pub tx_bytes : ℕ
  pub rx_bytes : ℕ
  pub rx_packets : ℕ
  pub inflight_packets : ℕ
  pub inflight_bytes : ℕ

-- Durations in nanoseconds.
pub record Timings : Type 0 where
  pub rto : ℕ
  pub rttvar : ℕ
  pub srtt : ℕ

pub record Stream : Type 0 where
  pub send_tx : List EventOutgoing
  pub send_open : Bool  -- the socket still holds the receiver of `send_tx`
  pub recv_rx : List EventIncoming
  pub recv_open : Bool  -- the socket still holds the sender of `recv_rx`
  pub incoming : List (ℕ × IncomingPacket)
  pub outgoing : List (ℕ × Shared)
  pub send_queue : List PacketRef
  pub cells : Cells  -- the atomics of this stream's packets
  pub next_cell : ℕ
  pub remote_id : ℕ
  pub local_id : ℕ
  pub remote_addr : SocketAddr
  pub seq : ℕ
  pub seq_flushed : ℕ
  pub ack : ℕ
  pub remote_acked : ℕ
  pub inflight : ℕ
  pub cwnd : ℕ
  pub timings : Timings
  pub rto_timeout : ℕ  -- the time at which the timer is set to fire
  pub read_cursor : ℕ
  pub read_waker : Option ℕ
  pub write_waker : Option ℕ
  pub drive_waker : Option ℕ
  pub error : Option UdxError
  pub on_close : Option ℕ
  pub on_firewall : Option (SocketAddr → Bool)
  pub stats : StreamStats
  pub state : StreamState
  pub woken : List ℕ
  pub signalled : List ℕ

-- `UdxStream::connect`, at the time `now`.
unfoldable pub connect : ℕ → SocketAddr → ℕ → ℕ → Stream
connect now dest remote_id local_id = record {
  send_tx = [];
  send_open = true;
  recv_rx = [];
  recv_open = true;
  incoming = [];
  outgoing = [];
  send_queue = [];
  cells = λ _. new_flags;
  next_cell = 0;
  remote_id = remote_id;
  local_id = local_id;
  remote_addr = dest;
  seq = 0;
  seq_flushed = 0;
  ack = 0;
  remote_acked = 0;
  inflight = 0;
  cwnd = 2 * udx_mtu;
  timings = record { rto = 1000 * millisecond; rttvar = 0; srtt = 0 };
  rto_timeout = now + 1000 * millisecond;
  read_cursor = 0;
  read_waker = none;
  write_waker = none;
  drive_waker = none;
  error = none;
  on_close = none;
  on_firewall = none;
  stats = record {
    tx_packets = 0;
    tx_bytes = 0;
    rx_bytes = 0;
    rx_packets = 0;
    inflight_packets = 0;
    inflight_bytes = 0;
  };
  state = opened;
  woken = [];
  signalled = [];
}

unfoldable pub create_header : Stream → ℕ → Header
create_header s typ = record {
  typ = if local_closed s.state then bit_and typ udx_header_end else typ;
  data_offset = 0;
  stream_id = s.remote_id;
  recv_win = 4294967295;
  seq = s.seq;
  ack = s.ack;
}

unfoldable pub create_packet : Stream → ℕ → List ℕ → Packet
create_packet s typ body = new_packet s.remote_addr (create_header s typ) body

-- `if let Some(waker) = waker.take() { waker.wake(); }`
abbrev pub wake : Option ℕ → List ℕ → List ℕ
wake none woken = woken
wake (some waker) woken = waker ∷ woken

unfoldable pub wake_driver : Stream → Stream
wake_driver s = record s { drive_waker = none; woken = wake s.drive_waker s.woken }

-- The type of a state packet: `END` once there is an error.
abbrev pub state_typ : Option UdxError → ℕ
state_typ none = 0
state_typ (some _) = bit_or 0 udx_header_end

unfoldable pub send_state_packet : Stream → Stream
unfolding wake_driver
send_state_packet s =
    let packet = create_packet s (state_typ s.error) [] in
    let s1 = record s { send_queue = s.send_queue ++ owned packet ∷ [] } in
    let s2 = wake_driver s1 in
    record s2 { stats = record s2.stats { tx_packets = add64 s2.stats.tx_packets 1 } }

unfoldable pub terminate : UdxError → Stream → Stream
unfolding send_state_packet wake_driver
terminate e s =
    let s1 = record s { error = some e; state = close_local s.state } in
    let s2 = send_state_packet s1 in
    let s3 = record s2 { read_waker = none; woken = wake s2.read_waker s2.woken } in
    let s4 = record s3 { write_waker = none; woken = wake s3.write_waker s3.woken } in
    wake_driver s4

unfoldable pub closed_and_drained : Stream → Bool
closed_and_drained s = is_some s.error && is_empty s.send_queue && is_empty s.outgoing

-- `UdxStream::close`, with the sender that it leaves for the driver.
unfoldable pub close : ℕ → Stream → Stream
unfolding terminate
close tx s = let s1 = terminate close_graceful s in record s1 { on_close = some tx }

-- `UdxStream::closed`
unfoldable pub stream_closed : Stream → Bool
stream_closed s = closed s.state
