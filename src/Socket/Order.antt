-- ===== src/Socket/Order.antt =====
-- The order in which a socket sends.
use async_udx.Prelude.{ℕ, ◌≤◌, ◌≡◌, List, [], ◌∷◌, ◌++◌, length, drop}
use async_udx.Error.{Outcome, ok, err, panic}
use async_udx.Packet.Types.{Transmit, into_transmit}
use async_udx.Packet.Set.{to_transmit}
use async_udx.Socket.Events.{EventOutgoing, transmit, transmit_dgram, stream_dropped}
use async_udx.Socket.Defs.{Socket}
use async_udx.Socket.Transmit.{SendEnv, SendAnswer, sent, send_pending, send_failed, fill}

abbrev made : Outcome Transmit → List Transmit
made (ok t) = t ∷ []
made _ = []

-- The transmits that a message becomes, and those of all messages of a channel.
unfoldable pub of_event : SendEnv → EventOutgoing → List Transmit
of_event env (stream_dropped id) = []
of_event env (transmit_dgram d) = into_transmit d ∷ []
of_event env (transmit set) = made (to_transmit (env.cells set) set)

unfoldable pub queued : SendEnv → List EventOutgoing → List Transmit
queued env [] = []
queued env (event ∷ events) = of_event env event ++ queued env events

-- What a call that comes through leaves in the queue, with what the channel still holds.
abbrev Leaves :
    {A : Type 0} → (List Transmit → Type 0) → (Socket → List Transmit) → Socket × Outcome A → Type 0
Leaves P view (s, ok a) = P (view s)
Leaves P view (s, err e) = Unit
Leaves P view (s, panic) = Unit

-- How many of the transmits that the system is handed it has taken: it is not called without any.
unfoldable pub taken : List Transmit → SendAnswer → ℕ
taken [] answer = 0
taken (t ∷ ts) (sent n) = n
taken (t ∷ ts) send_pending = 0
taken (t ∷ ts) (send_failed e) = 0

module _ (env : SendEnv) where
  abbrev left : Socket → List Transmit
  left s = s.outgoing_transmits ++ queued env s.send_rx

  -- The transmits that are left are those there were, less as many of the first as the system says that
  -- it has taken of the ones that are handed to it.
  abbrev Fewer : List Transmit → List Transmit → List Transmit → Type 0
  Fewer handed all ts =
      (more : List Transmit) × (all ≡ handed ++ more)
      × (taken handed (env.answer handed) ≤ length handed)
      × (ts ≡ drop (taken handed (env.answer handed)) all)

  abbrev filled : Socket → List Transmit
  filled s = (fill env s.send_rx s).0.outgoing_transmits
