-- ===== src/Socket/Datagrams.antt =====
-- The datagrams that src/socket.rs keeps for `recv`.
use async_udx.Prelude.{
  ℕ, suc, ◌-◌, ◌≤◌, ◌<◌, ◌≡◌, ◌⊎◌, refl, ap, ◌∙◌, inl, inr, List, [], ◌∷◌, ◌++◌, append-nil,
  append_assoc, Option, none, some, false, arith, if-cases, if-both, ltb, ltb→lt, ltb→le, length,
  length-append, take, take-nil, Option-cases,
}
use async_udx.Constants.{recv_queue_max_len}
use async_udx.Error.{Outcome, ok, err, panic, err-ok, panic-ok}
use async_udx.Map.{lookup}
use async_udx.Packet.Header.{Header, from_bytes}
use async_udx.Packet.Types.{SocketAddr, Dgram}
use async_udx.Socket.Defs.{Socket}
use async_udx.Socket.Slices.{Slice}
use async_udx.Socket.Receive.{
  go_on, hand_over, route, process_packet, on_recv_dgram, keep, RecvDgram, receive_all,
}
use async_udx.Socket.Routing.{process_packet_verdict}

abbrev back : SocketAddr → Outcome (Option (List ℕ)) → List Dgram
back addr (ok (some bytes)) = record { buf = bytes; dest = addr } ∷ []
back addr _ = []

-- The datagrams that no stream takes, in their order.
unfoldable pub given_back : List Slice → List RecvDgram → Socket → List Dgram
given_back [] dgrams s = []
given_back (iov ∷ iovs) [] s = []
given_back (iov ∷ iovs) (d ∷ dgrams) s =
    let r = process_packet d.local_addr d.bytes d.addr s in
    back d.addr r.1 ++ given_back iovs dgrams (go_on r (keep d.addr)).0

-- What is kept of more datagrams behind those that wait.
abbrev pub kept : List Dgram → List Dgram → List Dgram
kept waiting more = waiting ++ take (recv_queue_max_len - length waiting) more

route_dgrams :
    (bytes : List ℕ) (addr : SocketAddr) (o : Outcome Header) (s : Socket)
    → (route bytes addr o s).0.recv_dgrams ≡ s.recv_dgrams
unfolding route hand_over
route_dgrams bytes addr (err e) s = refl
route_dgrams bytes addr panic s = refl
route_dgrams bytes addr (ok h) s = elim (Option-cases (lookup h.stream_id s.streams)) [
  | inl e ↦ rw (e, route) refl
  | inr (handle, e) ↦
      rw (e, route)
        (if-both (λ (t : Socket). t.recv_dgrams ≡ s.recv_dgrams) handle.is_open refl refl)
]

process_packet_dgrams :
    (bytes : List ℕ) (addr local : SocketAddr) (s : Socket)
    → (process_packet (some local) bytes addr s).0.recv_dgrams ≡ s.recv_dgrams
unfolding process_packet
process_packet_dgrams bytes addr local s = route_dgrams bytes addr (from_bytes bytes) _

kept_room :
    (waiting more : List Dgram) (d : Dgram)
    → length waiting < recv_queue_max_len
    → kept (waiting ++ d ∷ []) more ≡ kept waiting (d ∷ more)
kept_room waiting more d room =
    let longer : 1024 - length (waiting ++ d ∷ []) ≡ 1024 - suc (length waiting) =
      omega (arith, length-append waiting (d ∷ [])) in
    let left : 1024 - length waiting ≡ suc (1024 - suc (length waiting)) = omega (arith, room) in
    rw (longer, left, append_assoc) refl

kept_full :
    (waiting xs ys : List Dgram)
    → recv_queue_max_len ≤ length waiting
    → kept waiting xs ≡ kept waiting ys
kept_full waiting xs ys full =
    let none_left : 1024 - length waiting ≡ 0 = omega (arith, full) in rw none_left refl

on_recv_dgram-kept :
    (bytes : List ℕ) (addr : SocketAddr) (s : Socket) (more : List Dgram)
    → let t = on_recv_dgram bytes addr s in
      kept t.recv_dgrams more ≡ kept s.recv_dgrams (record { buf = bytes; dest = addr } ∷ more)
unfolding on_recv_dgram
on_recv_dgram-kept bytes addr s more =
    if-cases (λ (t : Socket). kept t.recv_dgrams more ≡ kept s.recv_dgrams (dgram ∷ more))
      (ltb (length s.recv_dgrams) recv_queue_max_len)
      (λ room. kept_room s.recv_dgrams more dgram (ltb→lt _ _ room))
      (λ full. kept_full s.recv_dgrams more (dgram ∷ more) (ltb→le _ _ full))
  where
    dgram : Dgram
    dgram = record { buf = bytes; dest = addr }

-- What the datagrams in front have left, those behind are added to.
abbrev Kept : List Slice → List RecvDgram → Socket → Type 0
Kept iovs dgrams s =
    ((receive_all iovs dgrams s).1 ≡ ok tt)
    × ((receive_all iovs dgrams s).0.recv_dgrams ≡ kept s.recv_dgrams (given_back iovs dgrams s))

one_more :
    (addr : SocketAddr) (bytes : List ℕ) (waiting : List Dgram) (iovs : List Slice)
    (dgrams : List RecvDgram) (r : Socket × Outcome (Option (List ℕ)))
    → (r.1 ≡ ok none) ⊎ (r.1 ≡ ok (some bytes))
    → r.0.recv_dgrams ≡ waiting
    → ((t : Socket) → Kept iovs dgrams t)
    → let t = go_on (go_on r (keep addr)) (λ _. receive_all iovs dgrams) in
      (t.1 ≡ ok tt)
      × (t.0.recv_dgrams
          ≡ kept waiting (back addr r.1 ++ given_back iovs dgrams (go_on r (keep addr)).0))
one_more addr bytes waiting iovs dgrams (s, ok none) h e later =
    ((later s).0, (later s).1 ∙ ap (λ w. kept w (given_back iovs dgrams s)) e)
one_more addr bytes waiting iovs dgrams (s, ok (some given)) h e later =
    let t = on_recv_dgram given addr s in
    (
      (later t).0,
      (later t).1
          ∙ on_recv_dgram-kept given addr s (given_back iovs dgrams t)
          ∙ ap (λ w. kept w (record { buf = given; dest = addr } ∷ given_back iovs dgrams t)) e,
    )
one_more addr bytes waiting iovs dgrams (s, err x) (inl h) e later = absurd (err-ok h)
one_more addr bytes waiting iovs dgrams (s, err x) (inr h) e later = absurd (err-ok h)
one_more addr bytes waiting iovs dgrams (s, panic) (inl h) e later = absurd (panic-ok h)
one_more addr bytes waiting iovs dgrams (s, panic) (inr h) e later = absurd (panic-ok h)

answered :
    (bytes : List ℕ) (addr local : SocketAddr) (s : Socket)
    → let r = process_packet (some local) bytes addr s in (r.1 ≡ ok none) ⊎ (r.1 ≡ ok (some bytes))
answered bytes addr local s = elim (process_packet_verdict bytes addr local s) [
  | inl given ↦ inr given.0
  | inr taken ↦ inl taken.0
]

-- What the system guarantees of the datagrams of one call: each is in its slice, and the socket knows its
-- own address.
abbrev pub InSlices : List Slice → List RecvDgram → Type 0
InSlices [] dgrams = Unit {0}
InSlices (iov ∷ iovs) [] = Unit {0}
InSlices (iov ∷ iovs) (d ∷ dgrams) =
    (length d.bytes ≤ iov.len)
    × ((local : SocketAddr) × (d.local_addr ≡ some local))
    × InSlices iovs dgrams

-- Receiving datagrams that are no longer than their slices, on a socket whose address the system knows,
-- never fails or panics. Those that no stream takes come behind the ones that wait for `recv`, in their
-- order, each with its sender, as long as there are less than 1024: the ones that come then are dropped,
-- and none that waits already is.
pub receive_all-kept :
    (iovs : List Slice) (dgrams : List RecvDgram) (s : Socket)
    → InSlices iovs dgrams
    → ((receive_all iovs dgrams s).1 ≡ ok tt)
      × ((receive_all iovs dgrams s).0.recv_dgrams ≡ kept s.recv_dgrams (given_back iovs dgrams s))
unfolding receive_all given_back
receive_all-kept [] dgrams s held =
    (refl, rw (take-nil (1024 - length s.recv_dgrams), append-nil) refl)
receive_all-kept (iov ∷ iovs) [] s held =
    (refl, rw (take-nil (1024 - length s.recv_dgrams), append-nil) refl)
receive_all-kept (iov ∷ iovs) (d ∷ dgrams) s (fits, (local, known), held) =
    let whole : ltb iov.len (length d.bytes) ≡ false = ground (arith, fits) in
    rw (whole, known)
      (one_more d.addr d.bytes s.recv_dgrams iovs dgrams
        (process_packet (some local) d.bytes d.addr s) (answered d.bytes d.addr local s)
        (process_packet_dgrams d.bytes d.addr local s) (λ t. receive_all-kept iovs dgrams t held))
