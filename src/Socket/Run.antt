-- ===== src/Socket/Run.antt =====
-- A socket of src/socket.rs over time: the calls on its handles, the polls of its driver, and what
-- the streams do to the channels that they share with it.
use async_udx.Prelude.{ℕ, ◌≡◌, Bool, List, [], ◌∷◌, ◌++◌}
use async_udx.Map.{insert}
use async_udx.Packet.Types.{SocketAddr}
use async_udx.Socket.Events.{EventOutgoing}
use async_udx.Socket.Defs.{Socket, StreamHandle, connect, send, poll_dgram, drop_socket}
use async_udx.Socket.Receive.{RecvAnswer}
use async_udx.Socket.Transmit.{SendEnv}
use async_udx.Socket.Driver.{poll}

-- `batch_size` is the constant of the platform.
pub data Step (batch_size : ℕ) : Socket → Socket → Type 0 where
  connecting :
      (now : ℕ) (dest : SocketAddr) (local_id remote_id : ℕ) (s : Socket)
      → Step batch_size s (connect now dest local_id remote_id s).0
  sending : (dest : SocketAddr) (buf : List ℕ) (s : Socket) → Step batch_size s (send dest buf s)
  receiving : (waker : ℕ) (s : Socket) → Step batch_size s (poll_dgram waker s).0
  dropping : (strong_count : ℕ) (s : Socket) → Step batch_size s (drop_socket strong_count s)
  polling :
      (waker : ℕ) (env : SendEnv) (cleared : Bool) (answers : ℕ → RecvAnswer) (s : Socket)
      → env.batch_size ≡ batch_size
      → Step batch_size s (poll waker env cleared answers s).0
  message :
      (event : EventOutgoing) (s : Socket)
      → Step batch_size s (record s { send_rx = s.send_rx ++ event ∷ [] })
  stream_change :
      (local_id : ℕ) (handle : StreamHandle) (s : Socket)
      → Step batch_size s (record s { streams = insert local_id handle s.streams })

pub data Reach (batch_size : ℕ) (s : Socket) : Socket → Type 0 where
  here : Reach batch_size s s
  next : {t u : Socket} → Reach batch_size s t → Step batch_size t u → Reach batch_size s u
