-- ===== src/Stream/Transmit.antt =====
-- `poll_transmit` of src/stream.rs: the send queue goes to the socket in sets of equal packets.
use async_udx.Prelude.{ℕ, List, [], ◌∷◌, ◌++◌, Bool, not, ◌||◌, if◌then◌else◌, ◌==◌, min, length}
use async_udx.Constants.{max_segments}
use async_udx.Error.{Outcome, ok, err, panic}
use async_udx.Packet.Types.{SocketAddr, PacketRef, deref, packet_len, is_empty}
use async_udx.Packet.Set.{PacketSet, new_set}
use async_udx.Socket.Events.{EventOutgoing, transmit}
use async_udx.Stream.Defs.{Stream}

infixl 5 ◌>>=◌
abbrev pub ◌>>=◌ : {A B : Type 0} → Outcome A → (A → Outcome B) → Outcome B
ok a >>= f = f a
err e >>= f = err e
panic >>= f = panic

-- The loop's variables: the sets that it has sent, and the set that it is filling.
pub record Batch : Type 0 where
  pub sets : List PacketSet
  pub queue : List PacketRef
  pub segment_size : ℕ

abbrev pub empty_batch : Batch
empty_batch = record { sets = []; queue = []; segment_size = 0 }

-- The send inside the loop, which is left unimplemented where the channel is closed.
unfoldable pub send_set : Bool → SocketAddr → Batch → Outcome (List PacketSet)
send_set open_channel dest b =
    if is_empty b.queue
    then ok b.sets
    else if open_channel
    then ok (b.sets ++ new_set dest b.queue b.segment_size ∷ [])
    else panic

unfoldable pub batch_packet : ℕ → Bool → SocketAddr → PacketRef → Batch → Outcome Batch
batch_packet most open_channel dest p b =
    let size = packet_len (deref p) in
    if not (size == b.segment_size) || length b.queue == most
    then (send_set open_channel dest b >>= λ sets.
        ok (record { sets = sets; queue = p ∷ []; segment_size = size }))
    else ok (record b { queue = b.queue ++ p ∷ [] })

-- `while let Some(packet) = self.send_queue.pop_front()`
unfoldable pub batch_loop : ℕ → Bool → SocketAddr → List PacketRef → Batch → Outcome Batch
batch_loop most open_channel dest [] b = ok b
batch_loop most open_channel dest (p ∷ ps) b =
    batch_packet most open_channel dest p b >>= λ b1. batch_loop most open_channel dest ps b1

-- The send behind the loop, which only warns where the channel is closed.
unfoldable pub last_set : Bool → SocketAddr → Batch → List PacketSet
last_set open_channel dest b =
    if is_empty b.queue || not open_channel
    then b.sets
    else b.sets ++ new_set dest b.queue b.segment_size ∷ []

abbrev pub transmits : List PacketSet → List EventOutgoing
transmits [] = []
transmits (set ∷ sets) = transmit set ∷ transmits sets

-- `gso` is the number of segments that the system can send in one call.
unfoldable pub poll_transmit : ℕ → Stream → Outcome Stream
poll_transmit gso s = do
  b ← batch_loop (min gso max_segments) s.send_open s.remote_addr s.send_queue empty_batch
  ok (record s {
    send_queue = [];
    send_tx = s.send_tx ++ transmits (last_set s.send_open s.remote_addr b);
  })
