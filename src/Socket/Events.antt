-- ===== src/Socket/Events.antt =====
-- The messages between sockets and streams of src/socket.rs.
use async_udx.Prelude.{ℕ}
use async_udx.Packet.Types.{Dgram, IncomingPacket}
use async_udx.Packet.Set.{PacketSet}

pub data EventIncoming : Type 0 where
  packet_event : IncomingPacket → EventIncoming

pub data EventOutgoing : Type 0 where
  transmit : PacketSet → EventOutgoing
  transmit_dgram : Dgram → EventOutgoing
  stream_dropped : ℕ → EventOutgoing
