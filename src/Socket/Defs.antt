-- ===== src/Socket/Defs.antt =====
-- `UdxSocketInner` of src/socket.rs: its fields, its handles and the calls on them.
-- The operating system's socket and `UdpState` are no field: what they answer is an argument of the
-- polls. Of the receive buffer, which is scratch space, the field is the length. `woken` lists the wakers that
-- were used, newest first; `stamped` the packets whose `time_sent` was set, with the time.
use async_udx.Prelude.{
  ℕ, ◌*◌, List, [], ◌∷◌, ◌++◌, Option, none, some, Bool, true, false, if◌then◌else◌, ◌==◌,
}
use async_udx.Constants.{udx_mtu}
use async_udx.Map.{insert}
use async_udx.Packet.Types.{SocketAddr, Transmit, Dgram, Shared}
use async_udx.Packet.Set.{PacketSet}
use async_udx.Socket.Events.{EventIncoming, EventOutgoing, transmit_dgram}
use async_udx.Stream.Defs.{Stream, wake}
use async_udx.Stream.Receive.{Poll, ready, pending}

-- The sender of a stream's channel: what was sent, and whether the stream still holds the receiver.
pub record StreamHandle : Type 0 where
  pub recv_tx : List EventIncoming
  pub is_open : Bool

pub record SocketStats : Type 0 where
  pub tx_transmits : ℕ
  pub tx_dgrams : ℕ
  pub tx_bytes : ℕ
  pub rx_bytes : ℕ
  pub rx_dgrams : ℕ
  pub tx_window_start : Option ℕ
  pub tx_window_bytes : ℕ
  pub tx_window_dgrams : ℕ

pub record Socket : Type 0 where
  pub send_rx : List EventOutgoing
  pub streams : List (ℕ × StreamHandle)
  pub outgoing_transmits : List Transmit
  pub outgoing_packet_sets : List PacketSet
  pub recv_buf : Option ℕ
  pub stats : SocketStats
  pub has_refs : Bool
  pub drive_waker : Option ℕ
  pub send_overflow_timer : Option ℕ
  pub recv_dgrams : List Dgram
  pub recv_waker : Option ℕ
  pub woken : List ℕ
  pub stamped : List (Shared × ℕ)

-- `UdxSocketInner::bind`, where the system gives a socket. `batch_size` is the constant `BATCH_SIZE` of
-- the platform.
unfoldable pub bind : ℕ → Socket
bind batch_size = record {
  send_rx = [];
  streams = [];
  outgoing_transmits = [];
  outgoing_packet_sets = [];
  recv_buf = some (udx_mtu * batch_size);
  stats = record {
    tx_transmits = 0;
    tx_dgrams = 0;
    tx_bytes = 0;
    rx_bytes = 0;
    rx_dgrams = 0;
    tx_window_start = none;
    tx_window_bytes = 0;
    tx_window_dgrams = 0;
  };
  has_refs = true;
  drive_waker = none;
  send_overflow_timer = none;
  recv_dgrams = [];
  recv_waker = none;
  woken = [];
  stamped = [];
}

-- `UdxSocketInner::connect`
unfoldable pub connect : ℕ → SocketAddr → ℕ → ℕ → Socket → Socket × Stream
connect now dest local_id remote_id s = (
  record s { streams = insert local_id (record { recv_tx = []; is_open = true }) s.streams },
  async_udx.Stream.Defs.connect now dest remote_id local_id,
)

-- `UdxSocket::send`
unfoldable pub send : SocketAddr → List ℕ → Socket → Socket
send dest buf s = record s {
  send_rx = s.send_rx ++ transmit_dgram (record { buf = buf; dest = dest }) ∷ [];
}

-- `RecvFuture::poll`
unfoldable pub poll_dgram : ℕ → Socket → Socket × Poll (SocketAddr × List ℕ)
poll_dgram waker s = elim s.recv_dgrams [
  | dgram ∷ rest ↦ (record s { recv_dgrams = rest }, ready (dgram.dest, dgram.buf))
  | [] ↦ (record s { recv_waker = some waker }, pending)
]

-- `Drop for UdxSocket`, with the number of handles that there are.
unfoldable pub drop_socket : ℕ → Socket → Socket
drop_socket strong_count s =
    if strong_count == 2
    then record s { has_refs = false; drive_waker = none; woken = wake s.drive_waker s.woken }
    else s
