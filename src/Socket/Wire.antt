-- ===== src/Socket/Wire.antt =====
-- From the packets of a set, over one transmit of src/packet.rs, to the streams of a socket of
-- src/socket.rs.
use async_udx.Prelude.{
  ℕ, ◌*◌, ◌≤◌, ◌≡◌, ◌≢◌, sym, ap, subst, ◌∙◌, List, [], ◌∷◌, ◌++◌, Option, none, some, true, take,
  drop, get_elem?,
}
use async_udx.Error.{Outcome, ok}
use async_udx.Map.{lookup}
use async_udx.Packet.Header.{Header}
use async_udx.Packet.Codec.{Fits}
use async_udx.Packet.Types.{SocketAddr, PacketRef, deref, Cells, Transmit, as_slice, new_packet}
use async_udx.Packet.Set.{PacketSet, to_transmit}
use async_udx.Packet.Segments.{Kept, Equal, to_transmit_segments}
use async_udx.Socket.Events.{packet_event}
use async_udx.Socket.Defs.{Socket, StreamHandle}
use async_udx.Socket.Receive.{process_packet}
use async_udx.Socket.Routing.{arrival, process_packet-new_packet}

-- The answer of `process_packet` when it has handed a packet to its stream.
abbrev pub Handed :
    Header
    → List ℕ
    → SocketAddr
    → StreamHandle
    → Socket
    → Socket × Outcome (Option (List ℕ))
    → Type 0
Handed h body addr handle s r =
    (r.1 ≡ ok none)
    × (lookup h.stream_id r.0.streams
        ≡ some (record {
          recv_tx = handle.recv_tx ++ packet_event (arrival h body addr) ∷ [];
          is_open = true;
        }))
    × ((k : ℕ) → k ≢ h.stream_id → lookup k r.0.streams ≡ lookup k s.streams)

-- A set of packets of one length, which the set has as its segment size, that are not acknowledged yet
-- becomes one transmit. When its segment number `i` reaches a socket as a datagram, the header and the
-- body from which the set's packet number `i` was built are handed to the stream that the header names,
-- if that is open there. The header is taken to fit, and the system's socket to know its address.
pub to_transmit-process_packet :
    (cells : Cells) (set : PacketSet) (size i : ℕ) (p : PacketRef) (dest addr local : SocketAddr)
    (h : Header) (body : List ℕ) (handle : StreamHandle) (s : Socket)
    → set.segment_size ≡ some size
    → 1 ≤ size
    → Kept cells set.packets
    → Equal size set.packets
    → get_elem? set.packets i ≡ some p
    → deref p ≡ new_packet dest h body
    → Fits h
    → lookup h.stream_id s.streams ≡ some handle
    → handle.is_open ≡ true
    → (t : Transmit) × (to_transmit cells set ≡ ok t)
      × Handed h body addr handle s
          (process_packet (some local) (take size (drop (i * size) t.contents)) addr s)
to_transmit-process_packet cells set size i p dest addr local h body handle s sized positive kept
      equal at built fits there live =
    let (t, made, to, number, segment) =
      to_transmit_segments cells set size sized positive kept equal in
    (
      t,
      made,
      subst (λ bytes. Handed h body addr handle s (process_packet (some local) bytes addr s))
          (sym (segment i p at ∙ ap (λ q. as_slice q.buf) built))
          (process_packet-new_packet dest addr local h body handle s fits there live),
    )
