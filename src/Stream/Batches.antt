-- ===== src/Stream/Batches.antt =====
-- The sets that `poll_transmit` of src/stream.rs makes of the send queue.
use async_udx.Prelude.{
  ℕ, ◌≤◌, ◌≡◌, refl, ap, List, [], ◌∷◌, ◌++◌, append-nil, append_assoc, some, Bool, true, false,
  arith, not, ◌||◌, if◌then◌else◌, if-cases, ◌==◌, min, length, length-append, All, All-append,
}
use async_udx.Constants.{max_segments}
use async_udx.Error.{ok}
use async_udx.Packet.Types.{SocketAddr, PacketRef, deref, packet_len, is_empty}
use async_udx.Packet.Set.{PacketSet, new_set}
use async_udx.Stream.Defs.{Stream}
use async_udx.Stream.Transmit.{
  Batch, empty_batch, send_set, batch_packet, batch_loop, last_set, transmits, poll_transmit,
}

-- The packets of sets, one behind the other.
unfoldable pub flat : List PacketSet → List PacketRef
flat [] = []
flat (set ∷ sets) = set.packets ++ flat sets

-- A set that can go out in one call: packets of one length, one at least and `most` at most.
pub record Even (most : ℕ) (dest : SocketAddr) (set : PacketSet) : Type 0 where
  pub to_dest : set.dest ≡ dest
  pub size : ℕ
  pub sized : set.segment_size ≡ some size
  pub equal : All (λ p. packet_len (deref p) ≡ size) set.packets
  pub some_packets : 1 ≤ length set.packets
  pub bounded : length set.packets ≤ most

flat-append : (xs ys : List PacketSet) → flat (xs ++ ys) ≡ flat xs ++ flat ys
unfolding flat
flat-append [] ys = refl
flat-append (x ∷ xs) ys = rw (flat-append xs ys, append_assoc)

-- The packets so far are those of the sets and the ones that still wait for their set.
record Filling (most : ℕ) (dest : SocketAddr) (done : List PacketRef) (b : Batch) : Type 0 where
  pub all : flat b.sets ++ b.queue ≡ done
  pub even : All (Even most dest) b.sets
  pub equal : All (λ p. packet_len (deref p) ≡ b.segment_size) b.queue
  pub bounded : length b.queue ≤ most

module _ (most : ℕ) (dest : SocketAddr) where
  -- The sets with the open one behind them, as far as it holds anything.
  Closed : List PacketRef → List PacketSet → Type 0
  Closed done sets = (flat sets ≡ done) × All (Even most dest) sets

  close_set :
      (done : List PacketRef) (b : Batch)
      → Filling most dest done b
      → is_empty b.queue ≡ false
      → Closed done (b.sets ++ new_set dest b.queue b.segment_size ∷ [])
  unfolding flat new_set Closed
  close_set done b v e = (
    rw (flat-append b.sets (new_set dest b.queue b.segment_size ∷ []), append-nil) v.all,
    All-append (Even most dest) b.sets (new_set dest b.queue b.segment_size ∷ []) v.even (
      record {
        to_dest = refl;
        size = b.segment_size;
        sized = refl;
        equal = v.equal;
        some_packets = nonempty b.queue e;
        bounded = v.bounded;
      },
      tt,
    ),
  )
    where
      nonempty : (q : List PacketRef) → is_empty q ≡ false → 1 ≤ length q
      nonempty [] h = cc
      nonempty (p ∷ q) h = omega arith

  empty_set :
      (done : List PacketRef) (b : Batch)
      → Filling most dest done b
      → is_empty b.queue ≡ true
      → Closed done b.sets
  unfolding Closed
  empty_set done b v e = (go b.queue e v.all, v.even)
    where
      go : (q : List PacketRef) → is_empty q ≡ true → flat b.sets ++ q ≡ done → flat b.sets ≡ done
      go [] h eq = rw append-nil at eq
      go (p ∷ q) h eq = cc

  send_set_lem :
      (done : List PacketRef) (b : Batch)
      → Filling most dest done b
      → (sets : List PacketSet) × (send_set true dest b ≡ ok sets) × Closed done sets
  unfolding send_set
  send_set_lem done b v =
      if-cases (λ o. (sets : List PacketSet) × (o ≡ ok sets) × Closed done sets) (is_empty b.queue)
        (λ e. (b.sets, refl, empty_set done b v e)) (λ e. (_, refl, close_set done b v e))

  batch_packet_lem :
      (done : List PacketRef) (p : PacketRef) (b : Batch)
      → 1 ≤ most
      → Filling most dest done b
      → (b1 : Batch) × (batch_packet most true dest p b ≡ ok b1)
        × Filling most dest (done ++ p ∷ []) b1
  unfolding batch_packet Closed
  batch_packet_lem done p b some_room v =
      if-cases (λ o. (b1 : Batch) × (o ≡ ok b1) × Filling most dest (done ++ p ∷ []) b1)
        (not (packet_len (deref p) == b.segment_size) || length b.queue == most)
        (λ _.
          let (sets, e, closed) = send_set_lem done b v in
          (
            record { sets = sets; queue = p ∷ []; segment_size = packet_len (deref p) },
            rw e refl,
            record {
              all = ap (λ ps. ps ++ p ∷ []) closed.0;
              even = closed.1;
              equal = (refl, tt);
              bounded = some_room;
            },
          ))
        (λ same. (
          _,
          refl,
          record {
            all = rw (← append_assoc) (ap (λ ps. ps ++ p ∷ []) v.all);
            even = v.even;
            equal =
                All-append (λ q. packet_len (deref q) ≡ b.segment_size) b.queue (p ∷ []) v.equal
                  (ground (arith, same), tt);
            bounded = ground (arith, same, length-append b.queue (p ∷ []), v.bounded);
          },
        ))

  batch_loop_lem :
      (done ps : List PacketRef) (b : Batch)
      → 1 ≤ most
      → Filling most dest done b
      → (b1 : Batch) × (batch_loop most true dest ps b ≡ ok b1) × Filling most dest (done ++ ps) b1
  unfolding batch_loop
  batch_loop_lem done [] b some_room v = (b, refl, rw append-nil v)
  batch_loop_lem done (p ∷ ps) b some_room v =
      let (b1, e, w) = batch_packet_lem done p b some_room v in
      let (b2, f, x) = batch_loop_lem (done ++ p ∷ []) ps b1 some_room w in
      (b2, rw e f, rw append_assoc at x)

  last_set_lem :
      (done : List PacketRef) (b : Batch)
      → Filling most dest done b
      → Closed done (last_set true dest b)
  unfolding last_set
  last_set_lem done b v = go (is_empty b.queue) refl
    where
      go :
          (e : Bool)
          → is_empty b.queue ≡ e
          → Closed done
              (if e || not true then b.sets else b.sets ++ new_set dest b.queue b.segment_size ∷ [])
      go true e = empty_set done b v e
      go false e = close_set done b v e

-- While the socket is there and the system can send one segment or more, the whole send queue goes out
-- behind what waits to be sent, and nothing panics: in sets that hold the queue's packets in their
-- order, each of them to the stream's address, with one packet at least and `min gso 10` at most, all
-- of the length that the set names as its segment size.
pub poll_transmit_sets :
    (gso : ℕ) (s : Stream)
    → 1 ≤ gso
    → s.send_open ≡ true
    → (t : Stream) × (sets : List PacketSet) × (poll_transmit gso s ≡ ok t)
      × (t.send_queue ≡ [])
      × (t.send_tx ≡ s.send_tx ++ transmits sets)
      × (flat sets ≡ s.send_queue)
      × All (Even (min gso max_segments) s.remote_addr) sets
unfolding poll_transmit flat Closed
poll_transmit_sets gso s some_room live =
    let most = min gso max_segments in
    let start : Filling most s.remote_addr [] empty_batch = record {
      all = refl;
      even = tt;
      equal = tt;
      bounded = omega arith;
    } in
    let (b, e, v) =
      batch_loop_lem most s.remote_addr [] s.send_queue empty_batch (omega (arith, some_room))
        start in
    let closed = last_set_lem most s.remote_addr s.send_queue b v in
    let sets = last_set true s.remote_addr b in
    let left = record s { send_queue = []; send_tx = s.send_tx ++ transmits sets } in
    (left, sets, rw (live, e) refl, refl, refl, closed.0, closed.1)
