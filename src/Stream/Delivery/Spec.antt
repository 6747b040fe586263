-- ===== src/Stream/Delivery/Spec.antt =====
-- The receiver's invariant against the sequence of bodies that the other side sends.
use async_udx.Prelude.{
  ℕ, zero, suc, ◌≤◌, ◌<◌, ◌≡◌, List, [], ◌++◌, Option, none, some, take, length, u32_mod,
}
use async_udx.Map.{lookup}
use async_udx.Packet.Types.{IncomingPacket}
use async_udx.Stream.Receive.{Incoming}

-- The first `n` bodies, one behind the other.
unfoldable pub prefix : (ℕ → List ℕ) → ℕ → List ℕ
prefix f zero = []
prefix f (suc n) = prefix f n ++ f n

abbrev pub offset : Option IncomingPacket → ℕ
offset none = 0
offset (some p) = p.read_offset

-- A packet that waits to be read: it has its key's number and body, and only the one at the cursor
-- may be read in part.
pub record Waits (f : ℕ → List ℕ) (cursor k : ℕ) (p : IncomingPacket) : Type 0 where
  pub numbered : p.header.seq ≡ k
  pub body : p.buf ≡ f k
  pub within : p.read_offset ≤ length (f k)
  pub untouched : cursor < k → p.read_offset ≡ 0
  pub ahead : cursor ≤ k
  pub fits : suc k < u32_mod

-- `out` is what has been read so far: the bodies before the cursor and a front of the next one.
pub record Delivers (f : ℕ → List ℕ) (m : Incoming) (ack cursor : ℕ) (out : List ℕ) : Type 0 where
  pub waits : (k : ℕ) (p : IncomingPacket) → lookup k m ≡ some p → Waits f cursor k p
  pub behind : cursor ≤ ack
  pub gap : lookup ack m ≡ none
  pub full : (k : ℕ) → cursor ≤ k → k < ack → (p : IncomingPacket) × (lookup k m ≡ some p)
  pub output : out ≡ prefix f cursor ++ take (offset (lookup cursor m)) (f cursor)
