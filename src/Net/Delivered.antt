-- ===== src/Net/Delivered.antt =====
-- What the reader of one stream sees of what was written to the stream on the other side.
use async_udx.Prelude.{
  All-map, All-append, zero, suc, ℕ, ◌≤◌, ◌<◌, ◌≡◌, refl, sym, ap, subst, ◌∙◌, inl, inr, List, [],
  ◌∷◌, ◌++◌, append-nil, arith, if-both, leb, length, All, u32_mod,
}
use async_udx.Error.{close_graceful}
use async_udx.Map.{lookup}
use async_udx.Packet.Types.{Transmit}
use async_udx.Socket.Events.{packet_event}
use async_udx.Socket.Routing.{arrival}
use async_udx.Stream.Defs.{Stream, connect, close}
use async_udx.Stream.Drive.{drop_handle}
use async_udx.Stream.Run.{
  Step, write, read, drive, closing, dropping, deliver, take_messages, packet_sent, forget_stream,
  end_socket,
}
use async_udx.Stream.Delivery.Spec.{offset}
use async_udx.Stream.Delivery.ReadLoop.{Bounded}
use async_udx.Stream.Delivery.Steps.{Receives}
use async_udx.Stream.Delivery.Whole.{
  Reads, start, more, Sound, output, Reads-Receives, Reads-prefix,
}
use async_udx.Stream.Invariant.Calls.{poll_read_keeps}
use async_udx.Net.Log.{
  Log, nth, joined, joined-append, Agrees, Agrees-append, prefix-front, prefix-all,
}
use async_udx.Net.Sender.{Mine, Numbered, InLog, InLog-append}
use async_udx.Net.Driver.{terminate-Mine, driver_poll-Mine}
use async_udx.Net.Writing.{Short, poll_write-Mine}
use async_udx.Net.Wire.{Carries, Carries-map}
use async_udx.Net.Arrival.{arrival-IsHonest}
use async_udx.Net.Transfer.{Sends-Held, Sends-keeps, Arrives, Arrives-packet}
use async_udx.Net.Run.{Silent, Sealed, Net, idle, writes, moves, sends, arrives, acts}

Step-Mine : (log : Log) {s t : Stream} (step : Step s t) → Silent step → Mine log s → Mine log t
unfolding Silent close drop_handle
Step-Mine log (write waker buf s fits) h v = absurd h
Step-Mine log (take_messages left s) h v = absurd h
Step-Mine log (read waker remaining s) h v = poll_read_keeps (Mine log) waker remaining s (λ w. v)
Step-Mine log (drive env s) h v = driver_poll-Mine log env s v
Step-Mine log (closing tx s) h v = terminate-Mine log close_graceful s v
Step-Mine log (dropping n s) h v =
    if-both (Mine log) (leb n 2) (terminate-Mine log close_graceful s v) v
Step-Mine log (deliver event s) h v = v
Step-Mine log (packet_sent cell time s) h v = v
Step-Mine log (forget_stream s) h v = v
Step-Mine log (end_socket s) h v = v

Sealed-Sound : (f : ℕ → List ℕ) {s t : Stream} (step : Step s t) → Sealed step → Sound f step
unfolding Sealed Sound
Sealed-Sound f (write waker buf s fits) h = tt
Sealed-Sound f (take_messages left s) h = tt
Sealed-Sound f (read waker remaining s) h = tt
Sealed-Sound f (drive env s) h = tt
Sealed-Sound f (closing tx s) h = tt
Sealed-Sound f (dropping n s) h = tt
Sealed-Sound f (deliver event s) h = absurd h
Sealed-Sound f (packet_sent cell time s) h = tt
Sealed-Sound f (forget_stream s) h = tt
Sealed-Sound f (end_socket s) h = tt

-- The log has the written bytes, and all that was sent and all that was read is from it.
abbrev Linked : Stream → List Transmit → List ℕ → List ℕ → Stream → Stream → Type 0
Linked b0 wire written got a b =
    (log : Log) × Mine log a
    × (joined log ≡ written)
    × Short log
    × All (Carries (InLog log)) wire
    × ((f : ℕ → List ℕ) → Agrees log f → Reads f b0 got b)

-- Messages that reach the reader are as the writer sends them.
arrived :
    (log : Log) (b0 : Stream) (got : List ℕ) (f : ℕ → List ℕ) {wire : List Transmit} {b b1 : Stream}
    → length log < u32_mod
    → Agrees log f
    → All (Carries (InLog log)) wire
    → Arrives wire b b1
    → Reads f b0 got b
    → Reads f b0 got b1
unfolding Sound output
arrived log b0 got f {wire} {b} {b1} fits agrees carried came r =
    elim (Arrives-packet (InLog log) carried came) [
      | inl same ↦ subst (Reads f b0 got) (sym same) r
      | inr (h, body, addr, known, grown) ↦ subst (Reads f b0 got) (sym grown) (
          subst
            (λ out.
              Reads f b0 out
                (record b { recv_rx = b.recv_rx ++ packet_event (arrival h body addr) ∷ [] }))
            (append-nil got)
            (more r (deliver (packet_event (arrival h body addr)) b)
              (arrival-IsHonest log f h body addr fits agrees known)))
    ]

Net-Linked :
    (a0 b0 : Stream) {wire : List Transmit} {written got : List ℕ} {a b : Stream}
    → Mine [] a0
    → Net a0 b0 wire written got a b
    → Linked b0 wire written got a b
Net-Linked a0 b0 v idle = ([], v, refl, tt, tt, λ f agrees. start)
Net-Linked a0 b0 v (writes {wire} {written} {got} {a} {b} run waker buf fits) =
    let (log, mine, all, short, carried, reads) = Net-Linked a0 b0 v run in
    let (new, mine1, sent, short1) = poll_write-Mine log waker buf a fits mine in
    (
      log ++ new,
      mine1,
      joined-append log new ∙ ap (λ xs. xs ++ joined new) all ∙ ap (λ xs. written ++ xs) sent,
      All-append (λ body. length body ≤ 1380) log new short short1,
      All-map wire (λ t. Carries-map t (InLog-append log new)) carried,
      λ f agrees. reads f (Agrees-append log new f agrees),
    )
Net-Linked a0 b0 v (moves run step silent) =
    let (log, mine, all, short, carried, reads) = Net-Linked a0 b0 v run in
    (log, Step-Mine log step silent mine, all, short, carried, reads)
Net-Linked a0 b0 v (sends {wire} {wire1} {written} {got} {a} {b} {a1} run sent) =
    let (log, (held, numbers), all, short, carried, reads) = Net-Linked a0 b0 v run in
    let (held1, carried1) = Sends-Held (InLog log) sent held carried in
    (log, (held1, Sends-keeps (Numbered log) sent (λ left. numbers)), all, short, carried1, reads)
Net-Linked a0 b0 v (arrives run came) =
    let (log, mine, all, short, carried, reads) = Net-Linked a0 b0 v run in
    (
      log,
      mine,
      all,
      short,
      carried,
      λ f agrees.
          arrived log b0 _ f (subst (λ k. k < u32_mod) mine.1.1 mine.1.0.0) agrees carried came
            (reads f agrees),
    )
Net-Linked a0 b0 v (acts run step sealed) =
    let (log, mine, all, short, carried, reads) = Net-Linked a0 b0 v run in
    (
      log,
      mine,
      all,
      short,
      carried,
      λ f agrees. more (reads f agrees) step (Sealed-Sound f step sealed),
    )

pub connect-Mine :
    (now dest remote_id local_id : ℕ)
    → remote_id < u32_mod
    → Mine [] (connect now dest remote_id local_id)
unfolding connect
connect-Mine now dest remote_id local_id id = ((tt, tt, tt), ((omega arith, omega arith, id), refl))

Bounded-nth : (log : Log) → Short log → Bounded (nth log)
Bounded-nth [] h k = omega arith
Bounded-nth (body ∷ log) h zero = omega (arith, h.0)
Bounded-nth (body ∷ log) h (suc k) = Bounded-nth log h.1 k

-- The reader's invariant, for some bodies.
pub Net-Receives :
    (a0 b0 : Stream) {wire : List Transmit} {written got : List ℕ} {a b : Stream}
    → Mine [] a0
    → ((f : ℕ → List ℕ) → Receives f [] b0)
    → Net a0 b0 wire written got a b
    → (f : ℕ → List ℕ) × Bounded f × Receives f got b
Net-Receives a0 b0 {wire} {written} {got} {a} {b} v w run =
    let (log, mine, all, short, carried, reads) = Net-Linked a0 b0 v run in
    (
      nth log,
      Bounded-nth log short,
      Reads-Receives (nth log) b0 b got (Bounded-nth log short) (w (nth log))
          (reads (nth log) (λ k h. refl)),
    )

-- Whatever the two streams and the network do, the bytes that the reads have put into their buffers are
-- together a front of those that the writes on the other side have reported as written: none is changed,
-- left out, doubled or moved. They are all of them once the reader's cursor has come to the writer's next
-- number. The reader's stream gets from its socket only what the writer's socket has sent for the
-- writer's stream; the writer's may get anything. Both streams are new at the start, the sequence
-- numbers do not wrap around, and the writer's stream sends to an id below 2 ^ 32.
pub Net-prefix :
    (now dest remote_id local_id now2 dest2 remote_id2 local_id2 : ℕ) (wire : List Transmit)
    (written got : List ℕ) (a b : Stream)
    → remote_id < u32_mod
    → Net
        (connect now dest remote_id local_id)
        (connect now2 dest2 remote_id2 local_id2)
        wire
        written
        got
        a
        b
    → ((rest : List ℕ) × (written ≡ got ++ rest)) × (a.seq ≤ b.read_cursor → got ≡ written)
Net-prefix now dest remote_id local_id now2 dest2 remote_id2 local_id2 wire written got a b id run =
    let (log, mine, all, short, carried, reads) =
      Net-Linked (connect now dest remote_id local_id) (connect now2 dest2 remote_id2 local_id2)
        (connect-Mine now dest remote_id local_id id) run in
    let part = offset (lookup b.read_cursor b.incoming) in
    let whole =
      Reads-prefix (nth log) now2 dest2 remote_id2 local_id2 b got (Bounded-nth log short)
        (reads (nth log) (λ k h. refl)) in
    let (rest, front) = prefix-front log b.read_cursor part in
    (
      (rest, sym all ∙ front ∙ ap (λ xs. xs ++ rest) (sym whole)),
      λ at_end. whole ∙ prefix-all log b.read_cursor part (omega (arith, at_end, mine.1.1)) ∙ all,
    )
