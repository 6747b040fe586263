-- ===== src/Net/Tests.antt =====
-- Two streams: a write of two bytes, a read of one, and the acknowledgement.
use async_udx.Prelude.{
  ◌⊎◌, ap, length, ◌≤◌, subst, ◌<◌, ℕ, ◌≡◌, refl, List, [], ◌∷◌, ◌++◌, none, some, take, arith,
}
use async_udx.Map.{lookup}
use async_udx.Packet.Types.{IncomingPacket}
use async_udx.Stream.Delivery.Whole.{output}
use async_udx.Socket.Defs.{bind}
use async_udx.Stream.Receive.{poll_read}
use async_udx.Stream.Run.{drive, read}
use async_udx.Net.Wire.{whole}
use async_udx.Net.Transfer.{hands, comes}
use async_udx.Net.Run.{Net, idle, writes, moves, sends, arrives, acts, Silent, Sealed}
use async_udx.Net.Delivered.{Net-prefix}
use async_udx.Net.Example.{
  writer, env, written, driven, message, send_env, datagram, sent, reader, before, after,
  reader_socket, received, polled, drained, writer_room, wire, wire-sent, reader_known,
  reader_empty, reader_after, write_result, polled_sent, ack_message, ack_datagram, acked, finished,
  polled_message, back, ack_sent, back-sent, ack_after, writer_socket, writer_known, writer_after,
  driven_lem, finished_lem,
}
use async_udx.Net.Answering.{Inner}
use async_udx.Net.Duplex.{
  Duplex, opening, writing, stepping, sending, arriving, acting, answering, returning,
}
use async_udx.Net.Complete.{Duplex-arrived, Duplex-complete}

sent_Net : Net writer reader wire (7 ∷ 8 ∷ []) [] (record driven { send_tx = [] }) reader
unfolding Silent bind
sent_Net =
    sends
      (subst (λ n. Net writer reader [] (take n (7 ∷ 8 ∷ [])) [] driven reader) write_result
        (moves (writes idle 6 (7 ∷ 8 ∷ []) writer_room) (drive env written) tt))
      (hands send_env (bind 8) message [] refl driven_lem.0 refl refl)

received_Net : Net writer reader wire (7 ∷ 8 ∷ []) [] (record driven { send_tx = [] }) received
received_Net = arrives sent_Net (
    comes 0 sent datagram 8 (some 8) reader_socket before after wire-sent (whole refl refl)
      reader_known reader_empty reader_after refl)

drained_Net :
    Net writer reader wire
      (7 ∷ 8 ∷ [])
      (poll_read 5 1 polled).1
      (record driven { send_tx = [] })
      drained
unfolding Sealed output
drained_Net = acts (acts received_Net (drive env received) tt) (read 5 1 polled) tt

Net-prefix_example :
    ((rest : List ℕ) × (7 ∷ 8 ∷ [] ≡ (poll_read 5 1 polled).1 ++ rest))
    × (driven.seq ≤ drained.read_cursor → (poll_read 5 1 polled).1 ≡ 7 ∷ 8 ∷ [])
Net-prefix_example =
    Net-prefix 0 9 2 1 0 8 1 2 wire (7 ∷ 8 ∷ []) (poll_read 5 1 polled).1
      (record driven { send_tx = [] }) drained (omega arith) drained_Net

sent_Duplex : Duplex writer reader wire [] (7 ∷ 8 ∷ []) [] (record driven { send_tx = [] }) reader
unfolding Silent Inner bind
sent_Duplex =
    sending
      (subst (λ n. Duplex writer reader [] [] (take n (7 ∷ 8 ∷ [])) [] driven reader) write_result
        (stepping (writing opening 6 (7 ∷ 8 ∷ []) writer_room) (drive env written) tt tt))
      (hands send_env (bind 8) message [] refl driven_lem.0 refl refl)

answered_Duplex :
    Duplex writer reader wire back (7 ∷ 8 ∷ []) [] (record driven { send_tx = [] }) polled_sent
unfolding Inner output bind
answered_Duplex =
    answering
      (acting
        (arriving sent_Duplex (
          comes 0 sent datagram 8 (some 8) reader_socket before after wire-sent (whole refl refl)
            reader_known reader_empty reader_after refl))
        (drive env received) tt)
      (hands send_env (bind 8) ack_message [] refl polled_message refl refl)

finished_Duplex : Duplex writer reader wire back (7 ∷ 8 ∷ []) [] finished polled_sent
unfolding Silent Inner
finished_Duplex =
    stepping
      (returning answered_Duplex (
        comes 0 ack_sent ack_datagram 9 (some 9) writer_socket before ack_after back-sent
          (whole refl refl) writer_known driven_lem.2 writer_after refl))
      (drive env acked) tt tt

finished_sent : 0 < finished.seq
finished_sent = omega (arith, finished_lem.1)

finished_gone : lookup 0 finished.outgoing ≡ none
unfolding lookup
finished_gone = ap (lookup 0) finished_lem.0

Duplex-arrived_example :
    (0 < polled_sent.read_cursor)
    ⊎ ((p : IncomingPacket) × (lookup 0 polled_sent.incoming ≡ some p))
Duplex-arrived_example =
    Duplex-arrived 0 9 2 1 0 8 1 2 0 wire back (7 ∷ 8 ∷ []) [] finished polled_sent (omega arith)
      (omega arith) finished_Duplex finished_sent finished_gone

Duplex-complete_example :
    ([] ++ (poll_read 5 10 polled_sent).1 ≡ 7 ∷ 8 ∷ [])
    ⊎ (length (poll_read 5 10 polled_sent).1 ≡ 10)
Duplex-complete_example =
    Duplex-complete 0 9 2 1 0 8 1 2 5 10 wire back (7 ∷ 8 ∷ []) [] finished polled_sent
      (omega arith) (omega arith) finished_Duplex finished_lem.0
