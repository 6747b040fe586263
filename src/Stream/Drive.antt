-- ===== src/Stream/Drive.antt =====
-- `StreamDriver` of src/stream.rs: one poll of the task behind a stream, and the end of its handles.
use async_udx.Prelude.{
  ℕ, List, [], ◌∷◌, ◌++◌, none, some, Bool, true, false, if◌then◌else◌, leb, max,
}
use async_udx.Error.{IoError, broken_pipe, Outcome, ok, err, panic, close_graceful, from_io}
use async_udx.Socket.Events.{EventIncoming, packet_event, stream_dropped}
use async_udx.Stream.Defs.{Stream, closed_and_drained, terminate, wake}
use async_udx.Stream.Ack.{handle_incoming_max_remote_ack}
use async_udx.Stream.Receive.{handle_incoming, Poll, ready, pending}
use async_udx.Stream.Timeouts.{poll_check_timeouts, flush_waiting_packets}
use async_udx.Stream.Transmit.{poll_transmit}

abbrev pub socket_gone : IoError
socket_gone = record { kind = broken_pipe; message = "Socket driver future was dropped" }

-- The loop of `poll_incoming` over what the channel holds, with the highest ack so far.
unfoldable pub incoming_loop : ℕ → List EventIncoming → ℕ → Stream → Stream × ℕ
incoming_loop now [] remote_ack s = (s, remote_ack)
incoming_loop now (packet_event packet ∷ events) remote_ack s =
    incoming_loop now events (max remote_ack packet.header.ack) (handle_incoming now packet s)

unfoldable pub poll_incoming : ℕ → Stream → Stream × Outcome (Unit {0})
poll_incoming now s =
    let (s1, remote_ack) = incoming_loop now s.recv_rx 0 (record s { recv_rx = [] }) in
    if s.recv_open then handle_incoming_max_remote_ack now remote_ack s1 else (s1, err socket_gone)

-- What one poll finds outside the stream: the clock, the timer, the segments that the system can
-- send in a call, and its own waker.
pub record Env : Type 0 where
  pub now : ℕ
  pub fired : Bool
  pub gso : ℕ
  pub waker : ℕ

-- The steps of `poll_drive` behind `poll_check_timeouts`.
abbrev pub transmitted : Stream → Outcome Stream → Stream × Outcome Bool
transmitted s (ok s1) = (s1, ok false)
transmitted s (err e) = (s, err e)
transmitted s panic = (s, panic)

unfoldable pub drive_transmit : ℕ → Stream → Stream × Outcome Bool
drive_transmit gso s = let s1 = flush_waiting_packets s in transmitted s1 (poll_transmit gso s1)

unfoldable pub drive_timeouts : Env → Stream × Outcome (Unit {0}) → Stream × Outcome Bool
drive_timeouts env (s, ok _) = drive_transmit env.gso s
drive_timeouts env (s, err e) = (s, err e)
drive_timeouts env (s, panic) = (s, panic)

unfoldable pub drive_incoming : Env → Stream × Outcome (Unit {0}) → Stream × Outcome Bool
unfolding drive_timeouts
drive_incoming env (s, ok _) = drive_timeouts env (poll_check_timeouts env.fired env.now s)
drive_incoming env (s, err e) = (s, err e)
drive_incoming env (s, panic) = (s, panic)

unfoldable pub poll_drive : Env → Stream → Stream × Outcome Bool
unfolding drive_incoming
poll_drive env s = drive_incoming env (poll_incoming env.now s)

-- How `StreamDriver::poll` goes on from what `poll_drive` answers.
unfoldable pub schedule : Env → Stream × Outcome Bool → Stream × Outcome (Poll (Unit {0}))
schedule env (s, ok true) = (record s { woken = env.waker ∷ s.woken }, ok pending)
schedule env (s, ok false) = (record s { drive_waker = some env.waker }, ok pending)
schedule env (s, err e) =
    let s1 = terminate (from_io e) s in (record s1 { woken = env.waker ∷ s1.woken }, ok pending)
schedule env (s, panic) = (s, panic)

-- `if let Some(tx) = stream.on_close.take() { tx.send(()).ok(); }`, and the message to the socket.
unfoldable pub finish : Stream → Stream
finish s = record s {
  signalled = wake s.on_close s.signalled;
  on_close = none;
  send_tx = if s.send_open then s.send_tx ++ stream_dropped s.local_id ∷ [] else s.send_tx;
}

-- `StreamDriver::poll`
unfoldable pub driver_poll : Env → Stream → Stream × Outcome (Poll (Unit {0}))
unfolding schedule finish
driver_poll env s =
    let s1 = record s { drive_waker = none } in
    if closed_and_drained s1 then (finish s1, ok (ready tt)) else schedule env (poll_drive env s1)

-- `Drop for UdxStream`, with the number of handles that there are.
unfoldable pub drop_handle : ℕ → Stream → Stream
drop_handle strong_count s = if leb strong_count 2 then terminate close_graceful s else s
