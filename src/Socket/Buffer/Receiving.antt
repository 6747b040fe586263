-- ===== src/Socket/Buffer/Receiving.antt =====
-- `poll_recv` of src/socket.rs comes through, and puts the receive buffer back.
use async_udx.Prelude.{ℕ, ◌≡◌, ◌≢◌, refl, List, none, some, Bool, false, ◌-◌, ◌+◌, zero, suc}
use async_udx.Constants.{max_loop}
use async_udx.Error.{Outcome, ok, err, panic}
use async_udx.Socket.Defs.{Socket}
use async_udx.Socket.Slices.{Slice, initialised, iovectors_from_buf}
use async_udx.Socket.Receive.{
  go_on, receive_all, RecvAnswer, received, recv_pending, recv_failed, recv_loop, put_back,
  recv_into, recv_taken, poll_recv,
}
use async_udx.Socket.Datagrams.{InSlices, receive_all-kept}

-- What an answer is that does not panic.
abbrev pub Comes {ℓ} : {A : Type ℓ} → Outcome A → Type 0
Comes (ok a) = Unit
Comes (err e) = Unit
Comes panic = ⊥

pub Comes-panic : {A : Type 0} (o : Outcome A) → Comes o → o ≢ panic
Comes-panic (ok a) h e = cc
Comes-panic (err x) h e = cc
Comes-panic panic h e = absurd h

-- What the system guarantees of an answer: datagrams that are in their slices.
abbrev pub Held : List Slice → RecvAnswer → Type 0
Held iovs (received dgrams) = InSlices iovs dgrams
Held iovs recv_pending = Unit
Held iovs (recv_failed e) = Unit

recv_loop-Comes :
    (iovs : List Slice) (rounds : ℕ) (answers : ℕ → RecvAnswer) (i : ℕ) (s : Socket)
    → ((j : ℕ) → Held iovs (answers j))
    → Comes (recv_loop iovs rounds answers i s).1
unfolding recv_loop
recv_loop-Comes iovs zero answers i s held = tt
recv_loop-Comes iovs (suc rounds) answers i s held =
    go (answers i) (held i) (λ t. recv_loop-Comes iovs rounds answers (i + 1) t held)
  where
    behind :
        (r : Socket × Outcome (Unit {0}))
        → r.1 ≡ ok tt
        → ((t : Socket) → Comes (recv_loop iovs rounds answers (i + 1) t).1)
        → Comes (go_on r (λ _. recv_loop iovs rounds answers (i + 1))).1
    behind (t, ok a) e later = later t
    behind (t, err x) e later = tt
    behind (t, panic) e later = cc

    go :
        (a : RecvAnswer)
        → Held iovs a
        → ((t : Socket) → Comes (recv_loop iovs rounds answers (i + 1) t).1)
        → Comes
            (elim a as (λ _. Socket × Outcome Bool) [
              | received dgrams ↦
                  go_on (receive_all iovs dgrams s) (λ _. recv_loop iovs rounds answers (i + 1))
              | recv_pending ↦ (s, ok false)
              | recv_failed e ↦ (s, err e)
            ]).1
    go (received dgrams) h later =
        behind (receive_all iovs dgrams s) (receive_all-kept iovs dgrams s h).0 later
    go recv_pending h later = tt
    go (recv_failed e) h later = tt

-- Where the buffer is there and can be cut, and the system keeps to the slices, a poll comes through,
-- and puts the buffer back.
abbrev pub Restored : ℕ → Socket × Outcome Bool → Type 0
Restored len r = (r.0.recv_buf ≡ some len) × Comes r.1

pub poll_recv-Restored :
    (n len : ℕ) (iovs : List Slice) (answers : ℕ → RecvAnswer) (s : Socket)
    → s.recv_buf ≡ some len
    → iovectors_from_buf n len ≡ initialised iovs
    → ((i : ℕ) → Held iovs (answers i))
    → Restored len (poll_recv n answers s)
unfolding poll_recv
poll_recv-Restored n len iovs answers s there cut held =
    let taken = record s { recv_buf = none } in
    rw (there, recv_taken, cut, recv_into)
      (back (recv_loop iovs (max_loop - 1) answers 0 taken)
        (recv_loop-Comes iovs (max_loop - 1) answers 0 taken held))
  where
    back : (r : Socket × Outcome Bool) → Comes r.1 → Restored len (put_back len r)
    back (t, ok b) h = (refl, tt)
    back (t, err e) h = (refl, tt)
    back (t, panic) h = absurd h
