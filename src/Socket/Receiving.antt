-- ===== src/Socket/Receiving.antt =====
-- The bounds of a socket's queues, as far as receiving keeps them.
use async_udx.Prelude.{
  ℕ, zero, suc, ◌+◌, ◌-◌, ◌≤◌, List, [], ◌∷◌, Option, none, some, Bool, false, arith, if-both,
  if-cases, ltb, ltb→lt, length, length-append, Option-cases, inl, inr,
}
use async_udx.Constants.{recv_queue_max_len, max_loop}
use async_udx.Error.{Outcome, ok, err, panic}
use async_udx.Map.{lookup}
use async_udx.Packet.Header.{Header, from_bytes}
use async_udx.Packet.Types.{SocketAddr, IncomingPacket}
use async_udx.Socket.Defs.{Socket, StreamHandle}
use async_udx.Socket.Slices.{Slice, IoSlices, initialised, undefined, refused, iovectors_from_buf}
use async_udx.Socket.Receive.{
  go_on, hand_over, route, process_packet, on_recv_dgram, keep, receive_all, RecvDgram, RecvAnswer,
  received, recv_pending, recv_failed, recv_loop, put_back, recv_into, recv_taken, poll_recv,
}

-- What the first call keeps and the next one keeps, both keep.
pub go_on-both {κ} :
    {A B : Type 0} (P : Socket → Type κ) (r : Socket × Outcome A)
    (f : A → Socket → Socket × Outcome B)
    → P r.0
    → ((a : A) (s : Socket) → P s → P (f a s).0)
    → P (go_on r f).0
go_on-both P (s, ok a) f h k = k a s h
go_on-both P (s, err e) f h k = h
go_on-both P (s, panic) f h k = h

-- The queues of a socket with batches of `n`.
abbrev pub Bounds : ℕ → Socket → Type 0
Bounds n s =
    (length s.recv_dgrams ≤ recv_queue_max_len)
    × (length s.outgoing_transmits ≤ n)
    × (length s.outgoing_packet_sets ≤ length s.outgoing_transmits)

module _ (n : ℕ) where
  hand_over-Bounds :
      (id : ℕ) (p : IncomingPacket) (h : StreamHandle) (s : Socket)
      → Bounds n s
      → Bounds n (hand_over id p h s)
  unfolding hand_over
  hand_over-Bounds id p h s v = if-both (Bounds n) h.is_open v v

  route-Bounds :
      (bytes : List ℕ) (addr : SocketAddr) (o : Outcome Header) (s : Socket)
      → Bounds n s
      → Bounds n (route bytes addr o s).0
  unfolding route
  route-Bounds bytes addr (err e) s v = v
  route-Bounds bytes addr panic s v = v
  route-Bounds bytes addr (ok h) s v = elim (Option-cases (lookup h.stream_id s.streams)) [
    | inl e ↦ rw (e, route) v
    | inr (handle, e) ↦ rw (e, route) (hand_over-Bounds _ _ handle s v)
  ]

  process_packet-Bounds :
      (local : Option SocketAddr) (bytes : List ℕ) (addr : SocketAddr) (s : Socket)
      → Bounds n s
      → Bounds n (process_packet local bytes addr s).0
  unfolding process_packet
  process_packet-Bounds none bytes addr s v = v
  process_packet-Bounds (some local) bytes addr s v = route-Bounds bytes addr (from_bytes bytes) _ v

  on_recv_dgram-Bounds :
      (bytes : List ℕ) (addr : SocketAddr) (s : Socket)
      → Bounds n s
      → Bounds n (on_recv_dgram bytes addr s)
  unfolding on_recv_dgram
  on_recv_dgram-Bounds bytes addr s v =
      if-cases (Bounds n) (ltb (length s.recv_dgrams) recv_queue_max_len)
        (λ room. (
          omega (
            arith,
            ltb→lt _ _ room,
            length-append s.recv_dgrams (record { buf = bytes; dest = addr } ∷ []),
          ),
          v.1,
          v.2,
        ))
        (λ _. v)

  keep-Bounds :
      (addr : SocketAddr) (o : Option (List ℕ)) (s : Socket)
      → Bounds n s
      → Bounds n (keep addr o s).0
  keep-Bounds addr none s v = v
  keep-Bounds addr (some bytes) s v = on_recv_dgram-Bounds bytes addr s v

  receive_all-Bounds :
      (iovs : List Slice) (dgrams : List RecvDgram) (s : Socket)
      → Bounds n s
      → Bounds n (receive_all iovs dgrams s).0
  unfolding receive_all
  receive_all-Bounds [] dgrams s v = v
  receive_all-Bounds (iov ∷ iovs) [] s v = v
  receive_all-Bounds (iov ∷ iovs) (d ∷ dgrams) s v =
      let first = process_packet d.local_addr d.bytes d.addr s in
      if-both (λ (r : Socket × Outcome (Unit {0})). Bounds n r.0) (ltb iov.len (length d.bytes)) v
        (go_on-both (Bounds n) (go_on first (keep d.addr)) (λ _. receive_all iovs dgrams)
          (go_on-both (Bounds n) first (keep d.addr)
            (process_packet-Bounds d.local_addr d.bytes d.addr s v) (keep-Bounds d.addr))
          (λ _ t w. receive_all-Bounds iovs dgrams t w))

  recv_loop-Bounds :
      (iovs : List Slice) (rounds : ℕ) (answers : ℕ → RecvAnswer) (i : ℕ) (s : Socket)
      → Bounds n s
      → Bounds n (recv_loop iovs rounds answers i s).0
  unfolding recv_loop
  recv_loop-Bounds iovs zero answers i s v = v
  recv_loop-Bounds iovs (suc rounds) answers i s v =
      go (answers i) (λ t. recv_loop-Bounds iovs rounds answers (i + 1) t)
    where
      go :
          (a : RecvAnswer)
          → ((t : Socket) → Bounds n t → Bounds n (recv_loop iovs rounds answers (i + 1) t).0)
          → Bounds n
              (elim a as (λ _. Socket × Outcome Bool) [
                | received dgrams ↦
                    go_on (receive_all iovs dgrams s) (λ _. recv_loop iovs rounds answers (i + 1))
                | recv_pending ↦ (s, ok false)
                | recv_failed e ↦ (s, err e)
              ]).0
      go (received dgrams) later =
          go_on-both (Bounds n) (receive_all iovs dgrams s)
            (λ _. recv_loop iovs rounds answers (i + 1)) (receive_all-Bounds iovs dgrams s v)
            (λ _. later)
      go recv_pending later = v
      go (recv_failed e) later = v

  put_back-Bounds :
      (len : ℕ) (r : Socket × Outcome Bool) → Bounds n r.0 → Bounds n (put_back len r).0
  put_back-Bounds len (s, ok b) v = v
  put_back-Bounds len (s, err e) v = v
  put_back-Bounds len (s, panic) v = v

  pub poll_recv-Bounds :
      (batch_size : ℕ) (answers : ℕ → RecvAnswer) (s : Socket)
      → Bounds n s
      → Bounds n (poll_recv batch_size answers s).0
  unfolding poll_recv
  poll_recv-Bounds batch_size answers s v = taken s.recv_buf
    where
      into :
          (len : ℕ) (iovs : IoSlices)
          → Bounds n (recv_into answers len iovs (record s { recv_buf = none })).0
      into len (initialised iovs) =
          put_back-Bounds len _ (recv_loop-Bounds iovs (max_loop - 1) answers 0 _ v)
      into len undefined = v
      into len refused = v

      taken :
          (buf : Option ℕ)
          → Bounds n (recv_taken batch_size answers buf (record s { recv_buf = none })).0
      taken none = v
      taken (some len) = into len (iovectors_from_buf batch_size len)
