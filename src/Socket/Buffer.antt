-- ===== src/Socket/Buffer.antt =====
-- The receive buffer of src/socket.rs over the life of a socket.
pub mod Receiving
pub mod Sending
use async_udx.Prelude.{
  ℕ, ◌*◌, ◌/◌, ◌≤◌, ◌<◌, ◌≡◌, ◌≢◌, refl, inl, inr, List, [], ◌∷◌, some, arith, if-both, ◌==◌, ◌||◌,
}
use native.Mathlib.Nat.{div-eq_of_eq-mul_left}
use async_udx.Constants.{udx_mtu}
use async_udx.Error.{Outcome, panic}
use async_udx.Packet.Types.{SocketAddr, Dgram}
use async_udx.Socket.Defs.{Socket, bind, connect, send, poll_dgram, drop_socket}
use async_udx.Socket.Slices.{Slice, initialised, iovectors_from_buf}
use async_udx.Socket.Cutting.{evenly, iovectors_from_buf_lem}
use async_udx.Socket.Receive.{RecvAnswer, poll_recv}
use async_udx.Socket.Transmit.{sent}
use async_udx.Socket.Driver.{poll_overflow, rest, poll}
use async_udx.Stream.Receive.{Poll, ready, pending}
use async_udx.Socket.Run.{
  Step, connecting, sending, receiving, dropping, polling, message, stream_change, Reach, here,
  next,
}
use async_udx.Socket.Receiving.{go_on-both}
use async_udx.Socket.Buffer.Receiving.{Held, Comes-panic, poll_recv-Restored}
use async_udx.Socket.Buffer.Sending.{Has, poll_overflow-Has}

-- The polls of a run in which the system keeps to the slices that it is given.
unfoldable pub Keeping : {n : ℕ} {s t : Socket} → List Slice → Step n s t → Type 0
Keeping iovs (polling waker env cleared answers s e) = (i : ℕ) → Held iovs (answers i)
Keeping iovs _ = Unit

unfoldable pub AllKeeping : {n : ℕ} {s t : Socket} → List Slice → Reach n s t → Type 0
AllKeeping iovs here = Unit
AllKeeping iovs (next r step) = AllKeeping iovs r × Keeping iovs step

module _ (n len : ℕ) (iovs : List Slice) (cut : iovectors_from_buf n len ≡ initialised iovs) where
  Step-Has :
      {s t : Socket} (step : Step n s t) → Keeping iovs step → Has (some len) s → Has (some len) t
  unfolding Keeping connect send poll_dgram drop_socket poll rest
  Step-Has (connecting now dest l r s) k v = v
  Step-Has (sending dest buf s) k v = v
  Step-Has (receiving waker s) k v = go s.recv_dgrams
    where
      go :
          (q : List Dgram)
          → Has
              (some len)
              (elim q as (λ _. Socket × Poll (SocketAddr × List ℕ)) [
                | dgram ∷ others ↦
                    (record s { recv_dgrams = others }, ready (dgram.dest, dgram.buf))
                | [] ↦ (record s { recv_waker = some waker }, pending)
              ]).0
      go [] = v
      go (d ∷ q) = v
  Step-Has (dropping c s) k v = if-both (Has (some len)) (c == 2) v v
  Step-Has (polling waker env cleared answers s e) k v =
      let same : iovectors_from_buf env.batch_size len ≡ initialised iovs = rw e cut in
      go_on-both (Has (some len)) (poll_recv env.batch_size answers s) _
        (poll_recv-Restored env.batch_size len iovs answers s v same k).0
        λ got t w.
          go_on-both (Has (some len)) (poll_overflow env cleared t) _
            (poll_overflow-Has (some len) env cleared t w)
            λ sent u x.
              if-both (λ (r : Socket × Outcome (Poll (Unit {0}))). Has (some len) r.0) _ x
                (if-both (λ (r : Socket × Outcome (Poll (Unit {0}))). Has (some len) r.0)
                  (got || sent) x x)
  Step-Has (message event s) k v = v
  Step-Has (stream_change id handle s) k v = v

  Reach-Has :
      {s t : Socket} (r : Reach n s t) → AllKeeping iovs r → Has (some len) s → Has (some len) t
  unfolding AllKeeping
  Reach-Has here k v = v
  Reach-Has (next r step) k v = Step-Has step k.1 (Reach-Has r k.0 v)

-- The buffer of a new socket is cut into a slice of 1400 bytes for each datagram of a batch.
bound_cut : (n : ℕ) → 1 ≤ n → iovectors_from_buf n (udx_mtu * n) ≡ initialised (evenly n udx_mtu 0)
bound_cut n some_slots = elim (iovectors_from_buf_lem n (udx_mtu * n)) [
  | inl (inl none_there, _) ↦ absurd (omega arith)
  | inl (inr short, _) ↦ absurd (omega arith)
  | inr (inl (_, _, _, cut)) ↦ rw size at cut
  | inr (inr (_, _, less, _)) ↦
      let same : n * udx_mtu < udx_mtu * n = rw size at less in absurd (omega (arith, same))
]
  where
    size : udx_mtu * n / n ≡ udx_mtu
    size = div-eq_of_eq-mul_left some_slots refl

-- While the system keeps to the slices that it is given, and knows the address of its socket: in every
-- state that a new socket reaches between its polls, its receive buffer is there with 1400 bytes for each
-- of the `BATCH_SIZE` datagrams of a call, if that constant is not 0. `poll_recv` cuts it into just as many
-- slices of 1400 bytes, one behind the other, and neither panics then nor runs into undefined behaviour.
pub reached-Buffer :
    (n : ℕ) (s : Socket) (answers : ℕ → RecvAnswer)
    → 1 ≤ n
    → (r : Reach n (bind n) s) → AllKeeping (evenly n 1400 0) r
    → ((i : ℕ) → Held (evenly n 1400 0) (answers i))
    → (s.recv_buf ≡ some (1400 * n))
      × (iovectors_from_buf n (1400 * n) ≡ initialised (evenly n 1400 0))
      × ((poll_recv n answers s).1 ≢ panic)
unfolding bind
reached-Buffer n s answers some_slots r keeping held =
    let cut = bound_cut n some_slots in
    let there = Reach-Has n (1400 * n) (evenly n 1400 0) cut r keeping refl in
    let polled = poll_recv-Restored n (1400 * n) (evenly n 1400 0) answers s there cut held in
    (there, cut, Comes-panic (poll_recv n answers s).1 polled.1)
