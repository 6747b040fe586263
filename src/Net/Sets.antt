-- ===== src/Net/Sets.antt =====
-- What holds of the packets of a stream of src/stream.rs holds of the sets that it hands to the socket.
use async_udx.Prelude.{
  ℕ, ◌≡◌, refl, List, [], ◌∷◌, ◌++◌, some, Bool, not, ◌||◌, length, All, All-append, if-both,
  if-cases, ◌==◌, arith,
}
use async_udx.Error.{Outcome, ok, err, panic}
use async_udx.Packet.Types.{SocketAddr, Packet, PacketRef, deref, packet_len, is_empty}
use async_udx.Packet.Set.{PacketSet, new_set}
use async_udx.Socket.Events.{EventOutgoing, transmit, transmit_dgram, stream_dropped}
use async_udx.Stream.Defs.{Stream}
use async_udx.Stream.Transmit.{
  Batch, empty_batch, send_set, batch_packet, batch_loop, last_set, transmits, poll_transmit, ◌>>=◌,
}
use async_udx.Stream.Invariant.{OnOk}

module _ (A : Packet → Type 0) where
  abbrev pub AllRefs : List PacketRef → Type 0
  AllRefs = All (λ p. A (deref p))

  -- The packets have one length, which the set names.
  abbrev pub OfSet : PacketSet → Type 0
  OfSet set =
      (size : ℕ) × (set.segment_size ≡ some size)
      × All (λ p. packet_len (deref p) ≡ size) set.packets
      × AllRefs set.packets

  -- A message that a stream sends to its socket.
  abbrev pub OfMessage : EventOutgoing → Type 0
  OfMessage (transmit set) = OfSet set
  OfMessage (transmit_dgram dgram) = ⊥
  OfMessage (stream_dropped id) = Unit

  abbrev OfBatch : Batch → Type 0
  OfBatch b =
      All OfSet b.sets × All (λ p. packet_len (deref p) ≡ b.segment_size) b.queue × AllRefs b.queue

  abbrev Fine : Outcome Batch → Type 0
  Fine (ok b) = OfBatch b
  Fine (err e) = Unit
  Fine panic = Unit

  abbrev FineSets : Outcome (List PacketSet) → Type 0
  FineSets (ok sets) = All OfSet sets
  FineSets (err e) = Unit
  FineSets panic = Unit

  closed_set :
      (dest : SocketAddr) (b : Batch)
      → OfBatch b
      → All OfSet (b.sets ++ new_set dest b.queue b.segment_size ∷ [])
  unfolding new_set
  closed_set dest b v = All-append OfSet b.sets _ v.0 ((b.segment_size, refl, v.1, v.2), tt)

  send_set-Fine :
      (live : Bool) (dest : SocketAddr) (b : Batch) → OfBatch b → FineSets (send_set live dest b)
  unfolding send_set
  send_set-Fine live dest b v =
      if-both FineSets (is_empty b.queue) v.0 (if-both FineSets live (closed_set dest b v) tt)

  batch_packet-Fine :
      (most : ℕ) (live : Bool) (dest : SocketAddr) (p : PacketRef) (b : Batch)
      → A (deref p)
      → OfBatch b
      → Fine (batch_packet most live dest p b)
  unfolding batch_packet
  batch_packet-Fine most live dest p b a v =
      if-cases Fine (not (packet_len (deref p) == b.segment_size) || length b.queue == most)
        (λ _. begin_set (send_set live dest b) (send_set-Fine live dest b v))
        (λ same. (
          v.0,
          All-append (λ q. packet_len (deref q) ≡ b.segment_size) b.queue _ v.1
              (ground (arith, same), tt),
          All-append (λ q. A (deref q)) b.queue _ v.2 (a, tt),
        ))
    where
      begin_set :
          (o : Outcome (List PacketSet))
          → FineSets o
          → Fine (
              o >>= λ sets.
              ok (record { sets = sets; queue = p ∷ []; segment_size = packet_len (deref p) }))
      begin_set (ok sets) h = (h, (refl, tt), (a, tt))
      begin_set (err e) h = tt
      begin_set panic h = tt

  batch_loop-Fine :
      (most : ℕ) (live : Bool) (dest : SocketAddr) (ps : List PacketRef) (b : Batch)
      → AllRefs ps
      → OfBatch b
      → Fine (batch_loop most live dest ps b)
  unfolding batch_loop
  batch_loop-Fine most live dest [] b h v = v
  batch_loop-Fine most live dest (p ∷ ps) b h v =
      more (batch_packet most live dest p b) (batch_packet-Fine most live dest p b h.0 v)
        (λ b1 w. batch_loop-Fine most live dest ps b1 h.1 w)
    where
      more :
          (o : Outcome Batch)
          → Fine o
          → ((b1 : Batch) → OfBatch b1 → Fine (batch_loop most live dest ps b1))
          → Fine (o >>= λ b1. batch_loop most live dest ps b1)
      more (ok b1) w go = go b1 w
      more (err e) w go = tt
      more panic w go = tt

  transmits-OfMessage : (sets : List PacketSet) → All OfSet sets → All OfMessage (transmits sets)
  transmits-OfMessage [] h = tt
  transmits-OfMessage (set ∷ sets) h = (h.0, transmits-OfMessage sets h.1)

  last_set-OfSet :
      (live : Bool) (dest : SocketAddr) (b : Batch) → OfBatch b → All OfSet (last_set live dest b)
  unfolding last_set
  last_set-OfSet live dest b v =
      if-both (All OfSet) (is_empty b.queue || not live) v.0 (closed_set dest b v)

  -- What is kept by a stream with an empty queue and more such messages is kept by `poll_transmit`.
  pub poll_transmit-OnOk :
      (R : Stream → Type 0) (gso : ℕ) (s : Stream)
      → AllRefs s.send_queue
      → ((sent : List EventOutgoing)
          → All OfMessage sent
          → R (record s { send_queue = []; send_tx = s.send_tx ++ sent }))
      → OnOk R (poll_transmit gso s)
  unfolding poll_transmit
  poll_transmit-OnOk R gso s h left =
      go _ (batch_loop-Fine _ s.send_open s.remote_addr s.send_queue empty_batch h (tt, tt, tt))
    where
      go :
          (o : Outcome Batch)
          → Fine o
          → OnOk R (
              o >>= λ b. ok (record s {
                send_queue = [];
                send_tx = s.send_tx ++ transmits (last_set s.send_open s.remote_addr b);
              }))
      go (ok b) v = left _ (transmits-OfMessage _ (last_set-OfSet s.send_open s.remote_addr b v))
      go (err e) v = tt
      go panic v = tt
