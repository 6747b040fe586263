-- ===== src/Net/Duplex.antt =====
-- Two streams of src/stream.rs over time, each behind a socket of src/socket.rs, where each side gets
-- only what the other has sent. The transmits that either socket ever queued for its stream stand in
-- `there` and `back`: the network may lose their datagrams, and may bring them late, in any order, and
-- again.
use async_udx.Prelude.{
  ℕ, ◌+◌, ◌<◌, sym, subst, List, [], ◌++◌, append-nil, inl, inr, All-always, length, take, u32_mod,
}
use async_udx.Packet.Types.{Transmit}
use async_udx.Socket.Events.{packet_event}
use async_udx.Socket.Routing.{arrival}
use async_udx.Stream.Defs.{Stream}
use async_udx.Stream.Write.{poll_write}
use async_udx.Stream.Run.{
  Step, write, read, drive, closing, dropping, deliver, take_messages, packet_sent, forget_stream,
  end_socket,
}
use async_udx.Stream.Writing.Sent.{reported}
use async_udx.Stream.Delivery.Whole.{output}
use async_udx.Net.Transfer.{Sends, hands, Arrives, Arrives-packet}
use async_udx.Net.Run.{Net, idle, writes, moves, sends, arrives, acts, Silent, Sealed}
use async_udx.Net.Answering.{Inner}

-- The transmits of both sides, the bytes that the writes on one side have reported, those that the reads
-- on the other have put into their buffers, and the two streams. Both may write, read and end.
pub data Duplex (a0 b0 : Stream)
    : List Transmit → List Transmit → List ℕ → List ℕ → Stream → Stream → Type 0 where
  opening : Duplex a0 b0 [] [] [] [] a0 b0
  writing :
      {there back : List Transmit} {written got : List ℕ} {a b : Stream}
      → Duplex a0 b0 there back written got a b
      → (waker : ℕ) (buf : List ℕ) → a.seq + length buf < u32_mod
      → Duplex a0 b0 there back
          (written ++ take (reported (poll_write waker buf a).1) buf)
          got
          (poll_write waker buf a).0
          b
  stepping :
      {there back : List Transmit} {written got : List ℕ} {a b a1 : Stream}
      → Duplex a0 b0 there back written got a b
      → (step : Step a a1) → Silent step
      → Inner step
      → Duplex a0 b0 there back written got a1 b
  sending :
      {there there1 back : List Transmit} {written got : List ℕ} {a b a1 : Stream}
      → Duplex a0 b0 there back written got a b
      → Sends there a there1 a1
      → Duplex a0 b0 there1 back written got a1 b
  arriving :
      {there back : List Transmit} {written got : List ℕ} {a b b1 : Stream}
      → Duplex a0 b0 there back written got a b
      → Arrives there b b1
      → Duplex a0 b0 there back written got a b1
  acting :
      {there back : List Transmit} {written got : List ℕ} {a b b1 : Stream}
      → Duplex a0 b0 there back written got a b
      → (step : Step b b1) → Inner step
      → Duplex a0 b0 there back written (got ++ output step) a b1
  answering :
      {there back back1 : List Transmit} {written got : List ℕ} {a b b1 : Stream}
      → Duplex a0 b0 there back written got a b
      → Sends back b back1 b1
      → Duplex a0 b0 there back1 written got a b1
  returning :
      {there back : List Transmit} {written got : List ℕ} {a b a1 : Stream}
      → Duplex a0 b0 there back written got a b
      → Arrives back a a1
      → Duplex a0 b0 there back written got a1 b

Inner-Sealed : {s t : Stream} (step : Step s t) → Inner step → Sealed step
unfolding Inner Sealed
Inner-Sealed (write waker buf s fits) h = tt
Inner-Sealed (take_messages left s) h = tt
Inner-Sealed (read waker remaining s) h = tt
Inner-Sealed (drive env s) h = tt
Inner-Sealed (closing tx s) h = tt
Inner-Sealed (dropping n s) h = tt
Inner-Sealed (deliver event s) h = absurd h
Inner-Sealed (packet_sent cell time s) h = tt
Inner-Sealed (forget_stream s) h = tt
Inner-Sealed (end_socket s) h = tt

answered :
    (a0 b0 : Stream) {there back back1 : List Transmit} {written got : List ℕ} {a b b1 : Stream}
    → Net a0 b0 there written got a b
    → Sends back b back1 b1
    → Net a0 b0 there written got a b1
unfolding Sealed output
answered a0 b0 {there} {back} {back1} {written} {got} {a} {b} {b1} run
      (hands env x m left queued e grown u) =
    subst (Net a0 b0 there written got a) (sym u) (
      subst (λ out. Net a0 b0 there written out a (record b { send_tx = left })) (append-nil got)
        (acts run (take_messages left b) tt))

returned :
    (a0 b0 : Stream) {there back : List Transmit} {written got : List ℕ} {a b a1 : Stream}
    → Net a0 b0 there written got a b
    → Arrives back a a1
    → Net a0 b0 there written got a1 b
unfolding Silent
returned a0 b0 {there} {back} {written} {got} {a} {b} {a1} run came =
    elim (Arrives-packet (λ h body. Unit) (All-always (λ t bytes cut h e. tt) back) came) [
      | inl same ↦ subst (λ s. Net a0 b0 there written got s b) (sym same) run
      | inr (h, body, addr, known, grown) ↦
          subst (λ s. Net a0 b0 there written got s b) (sym grown)
            (moves run (deliver (packet_event (arrival h body addr)) a) tt)
    ]

-- A run in which the writer, too, gets only what the other side has sent is a run.
pub Duplex-Net :
    (a0 b0 : Stream) {there back : List Transmit} {written got : List ℕ} {a b : Stream}
    → Duplex a0 b0 there back written got a b
    → Net a0 b0 there written got a b
Duplex-Net a0 b0 opening = idle
Duplex-Net a0 b0 (writing run waker buf fits) = writes (Duplex-Net a0 b0 run) waker buf fits
Duplex-Net a0 b0 (stepping run step silent inner) = moves (Duplex-Net a0 b0 run) step silent
Duplex-Net a0 b0 (sending run sent) = sends (Duplex-Net a0 b0 run) sent
Duplex-Net a0 b0 (arriving run came) = arrives (Duplex-Net a0 b0 run) came
Duplex-Net a0 b0 (acting run step inner) =
    acts (Duplex-Net a0 b0 run) step (Inner-Sealed step inner)
Duplex-Net a0 b0 (answering run sent) = answered a0 b0 (Duplex-Net a0 b0 run) sent
Duplex-Net a0 b0 (returning run came) = returned a0 b0 (Duplex-Net a0 b0 run) came
