-- ===== src/Net/Held.antt =====
-- What holds of all packets that a stream of src/stream.rs holds, over what the stream does.
use async_udx.Prelude.{
  ℕ, ◌≡◌, List, [], ◌∷◌, ◌++◌, some, none-some, Option-cases, inl, inr, All, All-append, All-map,
  add64, arith, if-both, ltb, not, ◌==◌,
}
use async_udx.Error.{UdxError}
use async_udx.Map.{lookup, remove}
use async_udx.Packet.Types.{Packet, Shared, shared, deref, packet_len}
use async_udx.Socket.Events.{EventOutgoing, transmit, transmit_dgram, stream_dropped}
use async_udx.Stream.State.{close_local}
use async_udx.Stream.Defs.{
  Stream, create_packet, state_typ, send_state_packet, terminate, wake_driver,
}
use async_udx.Stream.Ack.{ack_packet, handle_remote_ack_for_packet}
use async_udx.Stream.Timeouts.{flush_packet}
use async_udx.Stream.Transmit.{poll_transmit}
use async_udx.Stream.Drive.{finish}
use async_udx.Stream.Invariant.{OnSome, OnOk}
use async_udx.Net.Sets.{AllRefs, OfMessage, poll_transmit-OnOk}

abbrev pub AllOutgoing : (Packet → Type 0) → List (ℕ × Shared) → Type 0
AllOutgoing A = All (λ e. A e.1.packet)

-- The packets that wait to be sent, to be acknowledged, and those that the socket has not taken yet.
abbrev pub Held : (Packet → Type 0) → Stream → Type 0
Held A s = AllRefs A s.send_queue × AllOutgoing A s.outgoing × All (OfMessage A) s.send_tx

module _ (A : Packet → Type 0) where
  lookup-Held :
      (k : ℕ) (o : List (ℕ × Shared)) {p : Shared}
      → AllOutgoing A o
      → lookup k o ≡ some p
      → A p.packet
  unfolding lookup
  lookup-Held k [] h e = absurd (none-some e)
  lookup-Held k ((j, q) ∷ o) {p} h e = ground (arith, lookup-Held k o {p = p} h.1)

  pub remove-Held : (k : ℕ) (o : List (ℕ × Shared)) → AllOutgoing A o → AllOutgoing A (remove k o)
  unfolding remove
  remove-Held k [] h = tt
  remove-Held k ((j, q) ∷ o) h =
      let kept : AllOutgoing A ((j, q) ∷ remove k o) = (h.0, remove-Held k o h.1) in
      if-both (AllOutgoing A) (j == k) (remove-Held k o h.1) kept

  pub send_state_packet-Held :
      (s : Stream)
      → A (create_packet s (state_typ s.error) [])
      → Held A s
      → Held A (send_state_packet s)
  unfolding send_state_packet wake_driver
  send_state_packet-Held s a (queue, out, sent) =
      (All-append (λ p. A (deref p)) s.send_queue _ queue (a, tt), out, sent)

  pub terminate-Held :
      (x : UdxError) (s : Stream)
      → A (
          create_packet
            (record s { error = some x; state = close_local s.state })
            (state_typ (some x))
            [])
      → Held A s
      → Held A (terminate x s)
  unfolding terminate wake_driver
  terminate-Held x s a v =
      send_state_packet-Held (record s { error = some x; state = close_local s.state }) a v

  pub ack_packet-Held : (now i : ℕ) (s : Stream) → Held A s → Held A (ack_packet now i s)
  unfolding ack_packet handle_remote_ack_for_packet
  ack_packet-Held now i s (queue, out, sent) =
      let removed = remove-Held i s.outgoing out in
      elim (Option-cases (lookup i s.outgoing)) [
        | inl e ↦ rw (e, ack_packet) (queue, removed, sent)
        | inr (p, e) ↦ rw (e, ack_packet) (queue, removed, sent)
      ]

  pub flush_packet-Held :
      (i : ℕ) (p : Shared) (s : Stream)
      → lookup i s.outgoing ≡ some p
      → Held A s
      → OnSome (Held A) (flush_packet p s)
  unfolding flush_packet
  flush_packet-Held i p s e (queue, out, sent) =
      let again : Held A (record s { send_queue = s.send_queue ++ shared p ∷ [] }) = (
        All-append (λ q. A (deref q)) s.send_queue _ queue
            (lookup-Held i s.outgoing {p = p} out e, tt),
        out,
        sent,
      ) in
      if-both (OnSome (Held A)) (not (s.cells p.cell).waiting) (queue, out, sent)
        (if-both (OnSome (Held A)) (ltb s.cwnd (add64 s.inflight (packet_len p.packet))) tt again)

  pub poll_transmit-Held : (gso : ℕ) (s : Stream) → Held A s → OnOk (Held A) (poll_transmit gso s)
  poll_transmit-Held gso s (queue, out, sent) =
      poll_transmit-OnOk A (Held A) gso s queue
        λ new all. (tt, out, All-append (OfMessage A) s.send_tx new sent all)

  pub finish-Held : (s : Stream) → Held A s → Held A (finish s)
  unfolding finish
  finish-Held s (queue, out, sent) = (
    queue,
    out,
    if-both (All (OfMessage A)) s.send_open
        (All-append (OfMessage A) s.send_tx (stream_dropped s.local_id ∷ []) sent (tt, tt)) sent,
  )

-- What holds of more packets holds of these.
pub OfMessage-map :
    {A B : Packet → Type 0} (m : EventOutgoing)
    → ((p : Packet) → A p → B p)
    → OfMessage A m
    → OfMessage B m
OfMessage-map (transmit set) f (size, e, even, all) =
    (size, e, even, All-map set.packets (λ p. f (deref p)) all)
OfMessage-map (transmit_dgram d) f h = absurd h
OfMessage-map (stream_dropped i) f h = tt

pub Held-map :
    {A B : Packet → Type 0} (s : Stream) → ((p : Packet) → A p → B p) → Held A s → Held B s
Held-map s f (queue, out, sent) = (
  All-map s.send_queue (λ p. f (deref p)) queue,
  All-map s.outgoing (λ e. f e.1.packet) out,
  All-map s.send_tx (λ m. OfMessage-map m f) sent,
)
