-- ===== src/Net/Arrival.antt =====
-- What a datagram of a stream's own packets adds to the messages of the other side's stream.
use async_udx.Prelude.{
  true-false, some-injective, ℕ, ◌<◌, ◌≡◌, ◌⊎◌, inl, inr, refl, sym, ap, ◌∙◌, List, Option, none,
  [], ◌∷◌, ◌++◌, some, not, arith, length, drop, u32_mod, ◌==◌, Option-cases, if-cases,
}
use async_udx.Error.{Outcome, ok, err, panic}
use async_udx.Map.{lookup, insert, remove, lookup-insert, lookup-remove}
use async_udx.Packet.Header.{Header, from_bytes}
use async_udx.Packet.Types.{SocketAddr, has_type}
use async_udx.Socket.Events.{packet_event}
use async_udx.Socket.Defs.{Socket, StreamHandle}
use async_udx.Socket.Receive.{process_packet, route, hand_over}
use async_udx.Socket.Routing.{arrival}
use async_udx.Stream.Delivery.Steps.{IsHonest}
use async_udx.Net.Log.{Log, Agrees}
use async_udx.Net.Sender.{InLog}

lookup_inserted :
    {V : Type 0} (k id : ℕ) (m : List (ℕ × V)) (v w : V)
    → lookup id (insert k v m) ≡ some w
    → ((k ≡ id) × (v ≡ w)) ⊎ (lookup id m ≡ some w)
lookup_inserted k id m v w e = ground (arith, lookup-insert k id v m)

lookup_removed :
    {V : Type 0} (k id : ℕ) (m : List (ℕ × V)) (w : V)
    → lookup id (remove k m) ≡ some w
    → lookup id m ≡ some w
lookup_removed k id m w e = ground (arith, lookup-remove k id m)

-- The handle's channel stays, or the packet is behind the messages in it.
abbrev pub Routed : List ℕ → SocketAddr → StreamHandle → StreamHandle → Type 0
Routed bytes addr before after =
    (after.recv_tx ≡ before.recv_tx)
    ⊎ ((h : Header) × (from_bytes bytes ≡ ok h)
        × (after.recv_tx ≡ before.recv_tx ++ packet_event (arrival h (drop 20 bytes) addr) ∷ []))

hand_over-Routed :
    (bytes : List ℕ) (addr : SocketAddr) (h : Header) (id : ℕ) (handle before after : StreamHandle)
    (s : Socket)
    → from_bytes bytes ≡ ok h
    → lookup h.stream_id s.streams ≡ some handle
    → lookup id s.streams ≡ some before
    → lookup id (hand_over h.stream_id (arrival h (drop 20 bytes) addr) handle s).streams
      ≡ some after
    → Routed bytes addr before after
unfolding hand_over
hand_over-Routed bytes addr h id handle before after s decodes found old =
    if-cases (λ (t : Socket). lookup id t.streams ≡ some after → Routed bytes addr before after)
      handle.is_open
      (λ _ e. elim (lookup_inserted h.stream_id id s.streams grown after e) [
        | inl (same, pushed) ↦
            let named : handle ≡ before =
              some-injective (sym found ∙ ap (λ k. lookup k s.streams) same ∙ old) in
            inr (
              h,
              decodes,
              sym (ap (λ (g : StreamHandle). g.recv_tx) pushed)
                  ∙ ap
                      (λ (g : StreamHandle).
                        g.recv_tx ++ packet_event (arrival h (drop 20 bytes) addr) ∷ [])
                      named,
            )
        | inr kept ↦ inl (same_handle kept)
      ])
      (λ _ e. inl (same_handle (lookup_removed h.stream_id id s.streams after e)))
  where
    grown : StreamHandle
    grown = record handle {
      recv_tx = handle.recv_tx ++ packet_event (arrival h (drop 20 bytes) addr) ∷ [];
    }

    same_handle : lookup id s.streams ≡ some after → after.recv_tx ≡ before.recv_tx
    same_handle e = ap (λ (g : StreamHandle). g.recv_tx) (some-injective (sym e ∙ old))

route-Routed :
    (bytes : List ℕ) (addr : SocketAddr) (id : ℕ) (before after : StreamHandle) (o : Outcome Header)
    (s : Socket)
    → from_bytes bytes ≡ o
    → lookup id s.streams ≡ some before
    → lookup id (route bytes addr o s).0.streams ≡ some after
    → Routed bytes addr before after
unfolding route
route-Routed bytes addr id before after (err x) s decodes old =
    λ e. inl (ap (λ (g : StreamHandle). g.recv_tx) (some-injective (sym e ∙ old)))
route-Routed bytes addr id before after panic s decodes old =
    λ e. inl (ap (λ (g : StreamHandle). g.recv_tx) (some-injective (sym e ∙ old)))
route-Routed bytes addr id before after (ok h) s decodes old =
    elim (Option-cases (lookup h.stream_id s.streams)) [
      | inl absent ↦
          rw (absent, route)
            (λ e. inl (ap (λ (g : StreamHandle). g.recv_tx) (some-injective (sym e ∙ old))))
      | inr (handle, found) ↦
          rw (found, route)
            (hand_over-Routed bytes addr h id handle before after s decodes found old)
    ]

-- A datagram leaves the channel of every stream as it was, or puts what it decodes to behind it.
pub process_packet-Routed :
    (local : Option SocketAddr) (bytes : List ℕ) (addr : SocketAddr) (id : ℕ)
    (before after : StreamHandle) (s : Socket)
    → lookup id s.streams ≡ some before
    → lookup id (process_packet local bytes addr s).0.streams ≡ some after
    → Routed bytes addr before after
unfolding process_packet
process_packet-Routed none bytes addr id before after s old e =
    inl (ap (λ (g : StreamHandle). g.recv_tx) (some-injective (sym e ∙ old)))
process_packet-Routed (some local) bytes addr id before after s old e =
    route-Routed bytes addr id before after (from_bytes bytes) _ refl old e

-- A packet with a header and a body as the other side has sent them.
pub arrival-IsHonest :
    (log : Log) (f : ℕ → List ℕ) (h : Header) (body : List ℕ) (addr : SocketAddr)
    → length log < u32_mod
    → Agrees log f
    → InLog log h body
    → IsHonest f (packet_event (arrival h body addr))
unfolding has_type
arrival-IsHonest log f h body addr fits agrees (inl none_carried) typed =
    absurd (true-false (sym typed ∙ ap (λ n. not (n == 0)) none_carried))
arrival-IsHonest log f h body addr fits agrees (inr (old, carried)) typed = record {
  body = carried ∙ sym (agrees h.seq old);
  unread = refl;
  fits = omega (arith, old, fits);
}
