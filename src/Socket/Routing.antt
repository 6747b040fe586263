-- ===== src/Socket/Routing.antt =====
-- Where a datagram goes that reaches a socket.
use async_udx.Prelude.{
  ℕ, ◌≡◌, ◌≢◌, ◌⊎◌, inl, inr, refl, List, [], ◌∷◌, ◌++◌, none, some, true, Option-cases,
}
use async_udx.Error.{ok, err}
use async_udx.Map.{lookup, lookup-insert_same, lookup-insert_other}
use async_udx.Packet.Header.{Header, bad_header, from_bytes}
use async_udx.Packet.Codec.{Fits}
use async_udx.Packet.Build.{from_bytes-new_packet}
use async_udx.Packet.Total.{from_bytes-total}
use async_udx.Packet.Types.{SocketAddr, IncomingPacket, as_slice, new_packet}
use async_udx.Socket.Events.{packet_event}
use async_udx.Socket.Defs.{Socket, StreamHandle}
use async_udx.Socket.Receive.{hand_over, route, process_packet}

-- The message that a packet becomes.
abbrev pub arrival : Header → List ℕ → SocketAddr → IncomingPacket
arrival h body addr = record { header = h; buf = body; read_offset = 0; source = addr }

-- A packet that `Packet::new` has built, from a header that fits and any body, goes to the stream that
-- its header names, if that is open and the system's socket knows its address: behind the messages sent
-- to it before, with the header and the body as they were. Nothing is given back, and every other
-- stream's handle stays as it is.
pub process_packet-new_packet :
    (dest addr local : SocketAddr) (h : Header) (body : List ℕ) (handle : StreamHandle) (s : Socket)
    → Fits h
    → lookup h.stream_id s.streams ≡ some handle
    → handle.is_open ≡ true
    → let r = process_packet (some local) (as_slice (new_packet dest h body).buf) addr s in
      (r.1 ≡ ok none)
      × (lookup h.stream_id r.0.streams
          ≡ some (record {
            recv_tx = handle.recv_tx ++ packet_event (arrival h body addr) ∷ [];
            is_open = true;
          }))
      × ((k : ℕ) → k ≢ h.stream_id → lookup k r.0.streams ≡ lookup k s.streams)
unfolding process_packet route hand_over
process_packet-new_packet dest addr local h body handle s fits e live =
    rw
      (
        (from_bytes-new_packet dest h body fits).0,
        route,
        e,
        live,
        (from_bytes-new_packet dest h body fits).1,
      )
      (
        refl,
        lookup-insert_same h.stream_id _ s.streams,
        λ k other. lookup-insert_other h.stream_id k _ s.streams other,
      )

-- Where the system's socket knows its own address, every datagram is taken or given back whole, and
-- nothing panics: it is given back, with all streams as they were, just where its header does not decode
-- or names no stream.
pub process_packet_verdict :
    (bytes : List ℕ) (addr local : SocketAddr) (s : Socket)
    → let r = process_packet (some local) bytes addr s in
      ((r.1 ≡ ok (some bytes))
        × (r.0.streams ≡ s.streams)
        × ((from_bytes bytes ≡ err bad_header)
            ⊎ ((h : Header) × (from_bytes bytes ≡ ok h) × (lookup h.stream_id s.streams ≡ none))))
      ⊎ ((r.1 ≡ ok none)
          × ((h : Header) × (handle : StreamHandle) × (from_bytes bytes ≡ ok h)
              × (lookup h.stream_id s.streams ≡ some handle)))
unfolding process_packet route
process_packet_verdict bytes addr local s = elim (from_bytes-total bytes) [
  | inl bad ↦ rw (bad, route) (inl (refl, refl, inl refl))
  | inr (h, good) ↦ elim (Option-cases (lookup h.stream_id s.streams)) [
    | inl e ↦ rw (good, route, e) (inl (refl, refl, inr (h, refl, e)))
    | inr (handle, e) ↦ rw (good, route, e) (inr (refl, (h, handle, refl, e)))
  ]
]
