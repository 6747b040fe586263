-- ===== src/Socket/Driver.antt =====
-- `SocketDriver` of src/socket.rs: one poll of the task behind a socket.
use async_udx.Prelude.{ℕ, ◌∷◌, none, some, Bool, true, false, not, ◌&&◌, ◌||◌, if◌then◌else◌}
use async_udx.Error.{Outcome, ok}
use async_udx.Packet.Types.{is_empty}
use async_udx.Socket.Defs.{Socket}
use async_udx.Socket.Receive.{go_on, RecvAnswer, poll_recv}
use async_udx.Socket.Transmit.{SendEnv, poll_transmit}
use async_udx.Stream.Receive.{Poll, ready, pending}

-- The overflow timer, whose poll answers `cleared`, or else the transmits.
unfoldable pub poll_overflow : SendEnv → Bool → Socket → Socket × Outcome Bool
poll_overflow env cleared s = elim s.send_overflow_timer [
  | some _ ↦ if cleared then (record s { send_overflow_timer = none }, ok true) else (s, ok false)
  | none ↦ poll_transmit env s
]

unfoldable pub rest : ℕ → Bool → Socket → Socket × Outcome (Poll (Unit {0}))
rest waker should_continue s =
    if not should_continue && not s.has_refs && is_empty s.streams
    then (s, ok (ready tt))
    else if should_continue
    then (record s { woken = waker ∷ s.woken }, ok pending)
    else (record s { drive_waker = some waker }, ok pending)

-- `SocketDriver::poll`. An error ends the task.
unfoldable pub poll :
    ℕ → SendEnv → Bool → (ℕ → RecvAnswer) → Socket → Socket × Outcome (Poll (Unit {0}))
poll waker env cleared answers s = go_on (poll_recv env.batch_size answers s) λ received t.
    go_on (poll_overflow env cleared t) λ transmitted. rest waker (received || transmitted)
