-- ===== src/Net/Lossless.antt =====
-- No packet is forgotten before the other side has it.
use async_udx.Prelude.{
  ℕ, ◌≤◌, ◌<◌, ◌≡◌, inl, inr, refl, sym, subst, List, [], ◌∷◌, All, All-append, All-map, arith,
  if-both, leb, u32_mod,
}
use async_udx.Error.{close_graceful}
use async_udx.Packet.Types.{Transmit}
use async_udx.Socket.Events.{packet_event}
use async_udx.Socket.Routing.{arrival}
use async_udx.Stream.Defs.{Stream, connect, close}
use async_udx.Stream.Drive.{drop_handle}
use async_udx.Stream.Run.{
  Step, write, read, drive, closing, dropping, deliver, take_messages, packet_sent, forget_stream,
  end_socket,
}
use async_udx.Stream.Invariant.Calls.{poll_read_keeps}
use async_udx.Stream.Delivery.Steps.{Receives}
use async_udx.Net.Made.{Made, InRange}
use async_udx.Net.Held.{Held}
use async_udx.Net.Sender.{Mine}
use async_udx.Net.Wire.{Carries, Carries-map}
use async_udx.Net.Acks.{UpTo, UpTo-mono}
use async_udx.Net.Answering.{Inner, Acking, Step-Acking}
use async_udx.Net.Covered.{
  EventUpTo, Covered, Covered-mono, terminate-Covered, driver_poll-Covered, poll_write-Covered,
}
use async_udx.Net.Transfer.{Sends, Sends-Held, Sends-keeps, Arrives, Arrives-packet, Arrives-keeps}
use async_udx.Net.Delivered.{Net-Receives}
use async_udx.Net.Duplex.{
  Duplex, opening, writing, stepping, sending, arriving, acting, answering, returning, Duplex-Net,
}

Step-Covered : (n : ℕ) {s t : Stream} (step : Step s t) → Inner step → Covered n s → Covered n t
unfolding Inner close drop_handle
Step-Covered n (write waker buf s fits) h v = poll_write-Covered n waker buf s v
Step-Covered n (read waker remaining s) h v = poll_read_keeps (Covered n) waker remaining s (λ w. v)
Step-Covered n (drive env s) h v = driver_poll-Covered n env s v
Step-Covered n (closing tx s) h v = terminate-Covered n close_graceful s v
Step-Covered n (dropping m s) h v =
    if-both (Covered n) (leb m 2) (terminate-Covered n close_graceful s v) v
Step-Covered n (deliver event s) h v = absurd h
Step-Covered n (take_messages left s) h v = absurd h
Step-Covered n (packet_sent cell time s) h v = v
Step-Covered n (forget_stream s) h v = v
Step-Covered n (end_socket s) h v = v

-- What the writer has let go, the reader has acknowledged; and nothing acknowledges more than it has.
abbrev Answered : List Transmit → Stream → Stream → Type 0
Answered back a b = Covered b.ack a × Acking 0 b × All (Carries (UpTo b.ack)) back

module _ (a0 b0 : Stream) (mine : Mine [] a0) (fresh : (f : ℕ → List ℕ) → Receives f [] b0)
    (covered : Covered b0.ack a0) (acking : Acking 0 b0) where
  acted :
      {there back : List Transmit} {written got : List ℕ} {a b b1 : Stream} (step : Step b b1)
      → Duplex a0 b0 there back written got a b
      → Inner step
      → Answered back a b
      → Answered back a b1
  acted {there} {back} {written} {got} {a} {b} {b1} step run inner (cov, ack, carried) =
      let (f, bounded, r) = Net-Receives a0 b0 mine fresh (Duplex-Net a0 b0 run) in
      let (forward, held, range) = Step-Acking f got step inner r ack in
      (
        Covered-mono a forward cov,
        (omega arith, held, range),
        All-map back (λ t. Carries-map t (UpTo-mono forward)) carried,
      )

  returned :
      {back : List Transmit} {a a1 : Stream} (b : Stream)
      → Arrives back a a1
      → All (Carries (UpTo b.ack)) back
      → Covered b.ack a
      → Covered b.ack a1
  returned {back} {a} {a1} b came carried (old, rx) =
      elim (Arrives-packet (UpTo b.ack) carried came) [
        | inl same ↦ subst (Covered b.ack) (sym same) (old, rx)
        | inr (h, body, addr, known, grown) ↦ subst (Covered b.ack) (sym grown) (
          old,
          All-append (EventUpTo b.ack) a.recv_rx (packet_event (arrival h body addr) ∷ []) rx
              (known, tt),
        )
      ]

  answered :
      {back back1 : List Transmit} (a b : Stream) {b1 : Stream}
      → Sends back b back1 b1
      → Covered b.ack a
      → InRange b
      → Held (Made (UpTo b.ack)) b1
      → All (Carries (UpTo b.ack)) back1
      → Answered back1 a b1
  answered {back} {back1} a b {b1} sent cov range held carried =
      let same : b1.ack ≡ b.ack = Sends-keeps (λ t. t.ack ≡ b.ack) sent (λ left. refl) in
      subst
        (λ n.
          Covered n a
          × ((0 ≤ n) × Held (Made (UpTo n)) b1 × InRange b1)
          × All (Carries (UpTo n)) back1)
        (sym same) (cov, (omega arith, held, Sends-keeps InRange sent (λ left. range)), carried)

  pub Duplex-Answered :
      {there back : List Transmit} {written got : List ℕ} {a b : Stream}
      → Duplex a0 b0 there back written got a b
      → Answered back a b
  Duplex-Answered opening = (covered, acking, tt)
  Duplex-Answered (writing {a} {b} run waker buf fits) =
      let (cov, ack, carried) = Duplex-Answered run in
      (poll_write-Covered b.ack waker buf a cov, ack, carried)
  Duplex-Answered (stepping {b} run step silent inner) =
      let (cov, ack, carried) = Duplex-Answered run in
      (Step-Covered b.ack step inner cov, ack, carried)
  Duplex-Answered (sending {b} run sent) =
      let (cov, ack, carried) = Duplex-Answered run in
      (Sends-keeps (Covered b.ack) sent (λ left. cov), ack, carried)
  Duplex-Answered (arriving {back} {a} run came) =
      let v = Duplex-Answered run in Arrives-keeps (Answered back a) came (λ rx. v)
  Duplex-Answered (acting run step inner) = acted step run inner (Duplex-Answered run)
  Duplex-Answered (answering {a} {b} run sent) =
      let (cov, (older, held, range), carried) = Duplex-Answered run in
      let (held1, carried1) = Sends-Held (UpTo b.ack) sent held carried in
      answered a b sent cov range held1 carried1
  Duplex-Answered (returning {b} run came) =
      let (cov, ack, carried) = Duplex-Answered run in (returned b came carried cov, ack, carried)

pub connect-Acking :
    (now dest remote_id local_id : ℕ)
    → remote_id < u32_mod
    → Acking 0 (connect now dest remote_id local_id)
unfolding connect
connect-Acking now dest remote_id local_id id =
    (omega arith, (tt, tt, tt), (omega arith, omega arith, id))

pub connect-Covered :
    (n now dest remote_id local_id : ℕ) → Covered n (connect now dest remote_id local_id)
unfolding connect
connect-Covered n now dest remote_id local_id = (λ k sent e. absurd (omega arith), tt)
