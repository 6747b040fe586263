-- ===== src/Net/Transfer.antt =====
-- What passes between a stream of src/stream.rs and the network, through a socket of src/socket.rs.
use async_udx.Prelude.{
  ℕ, ◌≡◌, ◌⊎◌, inl, inr, sym, ap, subst, ◌∙◌, List, Option, [], ◌∷◌, ◌++◌, some, All, All-get, drop,
  get_elem?,
}
use async_udx.Map.{lookup}
use async_udx.Packet.Header.{Header}
use async_udx.Packet.Types.{SocketAddr, Transmit}
use async_udx.Socket.Events.{EventIncoming, EventOutgoing, packet_event}
use async_udx.Socket.Defs.{Socket, StreamHandle}
use async_udx.Socket.Receive.{process_packet}
use async_udx.Socket.Transmit.{SendEnv, take_event}
use async_udx.Socket.Routing.{arrival}
use async_udx.Stream.Defs.{Stream}
use async_udx.Net.Sets.{OfMessage}
use async_udx.Net.Made.{Made}
use async_udx.Net.Held.{Held}
use async_udx.Net.Wire.{Segment, Carries, take_event-Carries}
use async_udx.Net.Arrival.{process_packet-Routed}

-- The stream's socket, which has queued the transmits `wire` for it, takes the channel's first message.
pub data Sends (wire : List Transmit) (s : Stream) (wire1 : List Transmit) (t : Stream)
    : Type 0 where
  hands :
      (env : SendEnv) (x : Socket) (m : EventOutgoing) (left : List EventOutgoing)
      → x.outgoing_transmits ≡ wire
      → s.send_tx ≡ m ∷ left
      → wire1 ≡ (take_event env m x).0.outgoing_transmits
      → t ≡ record s { send_tx = left }
      → Sends wire s wire1 t

-- A datagram of one of the transmits comes to the stream's socket, whose handle for the stream has the
-- other end of the stream's channel.
pub data Arrives (wire : List Transmit) (s t : Stream) : Type 0 where
  comes :
      (n : ℕ) (u : Transmit) (bytes : List ℕ) (addr : SocketAddr) (local : Option SocketAddr)
      (y : Socket) (before after : StreamHandle)
      → get_elem? wire n ≡ some u
      → Segment u bytes
      → lookup s.local_id y.streams ≡ some before
      → before.recv_tx ≡ s.recv_rx
      → lookup s.local_id (process_packet local bytes addr y).0.streams ≡ some after
      → t ≡ record s { recv_rx = after.recv_tx }
      → Arrives wire s t

-- What holds of a stream's packets holds of the datagrams of its transmits.
pub Sends-Held :
    (H : Header → List ℕ → Type 0) {wire wire1 : List Transmit} {s t : Stream}
    → Sends wire s wire1 t
    → Held (Made H) s
    → All (Carries H) wire
    → Held (Made H) t × All (Carries H) wire1
Sends-Held H {wire} {wire1} {s} {t} (hands env x m left queued e grown u) (queue, out, sent) c =
    let messages = subst (All (OfMessage (Made H))) e sent in
    (
      subst (Held (Made H)) (sym u) (queue, out, messages.1),
      subst (All (Carries H)) (sym grown)
          (take_event-Carries H env m x messages.0 (subst (All (Carries H)) (sym queued) c)),
    )

-- The stream stays as it was, or has one more packet, with a header and a body that the datagrams have.
pub Arrives-packet :
    (H : Header → List ℕ → Type 0) {wire : List Transmit} {s t : Stream}
    → All (Carries H) wire
    → Arrives wire s t
    → (t ≡ s)
      ⊎ ((h : Header) × (body : List ℕ) × (addr : SocketAddr) × H h body
          × (t ≡ record s { recv_rx = s.recv_rx ++ packet_event (arrival h body addr) ∷ [] }))
Arrives-packet H {wire} {s} {t} c
      (comes n u bytes addr local y before after there cut known rx kept e) =
    elim (process_packet-Routed local bytes addr s.local_id before after y known kept) [
      | inl same ↦ inl (e ∙ ap (λ q. record s { recv_rx = q }) (same ∙ rx))
      | inr (h, decodes, grown) ↦ inr (
        h,
        drop 20 bytes,
        addr,
        All-get (Carries H) wire n {x = u} c there bytes cut h decodes,
        e
            ∙ ap (λ q. record s { recv_rx = q })
                (grown ∙ ap (λ q. q ++ packet_event (arrival h (drop 20 bytes) addr) ∷ []) rx),
      )
    ]

-- What another channel keeps.
pub Sends-keeps :
    (R : Stream → Type 0) {wire wire1 : List Transmit} {s t : Stream}
    → Sends wire s wire1 t
    → ((left : List EventOutgoing) → R (record s { send_tx = left }))
    → R t
Sends-keeps R (hands env x m left queued e grown u) kept = subst R (sym u) (kept left)

-- What other messages in the channel keep.
pub Arrives-keeps :
    (R : Stream → Type 0) {wire : List Transmit} {s t : Stream}
    → Arrives wire s t
    → ((rx : List EventIncoming) → R (record s { recv_rx = rx }))
    → R t
Arrives-keeps R (comes n u bytes addr local y before after there cut known rx kept e) left =
    subst R (sym e) (left after.recv_tx)
