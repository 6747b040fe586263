-- ===== src/Stream/Run.antt =====
-- A stream of src/stream.rs over time: the calls on its handles, the polls of its driver, and what
-- the socket does to the channels and the packets that it shares with the stream.
use async_udx.Prelude.{ℕ, ◌+◌, ◌<◌, List, [], ◌∷◌, ◌++◌, some, false, u32_mod, length}
use async_udx.Packet.Types.{update}
use async_udx.Socket.Events.{EventIncoming, EventOutgoing}
use async_udx.Stream.Defs.{Stream, close}
use async_udx.Stream.Receive.{poll_read}
use async_udx.Stream.Write.{poll_write}
use async_udx.Stream.Drive.{Env, driver_poll, drop_handle}

-- A write is a step as long as the sequence numbers do not wrap around.
pub data Step : Stream → Stream → Type 0 where
  write :
      (waker : ℕ) (buf : List ℕ) (s : Stream)
      → s.seq + length buf < u32_mod
      → Step s (poll_write waker buf s).0
  read : (waker remaining : ℕ) (s : Stream) → Step s (poll_read waker remaining s).0
  drive : (env : Env) (s : Stream) → Step s (driver_poll env s).0
  closing : (tx : ℕ) (s : Stream) → Step s (close tx s)
  dropping : (strong_count : ℕ) (s : Stream) → Step s (drop_handle strong_count s)
  deliver :
      (event : EventIncoming) (s : Stream) → Step s (record s { recv_rx = s.recv_rx ++ event ∷ [] })
  take_messages : (left : List EventOutgoing) (s : Stream) → Step s (record s { send_tx = left })
  packet_sent :
      (cell time : ℕ) (s : Stream)
      → Step s (record s {
        cells = update s.cells cell (record (s.cells cell) { time_sent = some time });
      })
  forget_stream : (s : Stream) → Step s (record s { recv_open = false })
  end_socket : (s : Stream) → Step s (record s { send_open = false; recv_open = false })

pub data Reach (s : Stream) : Stream → Type 0 where
  here : Reach s s
  next : {t u : Stream} → Reach s t → Step t u → Reach s u
