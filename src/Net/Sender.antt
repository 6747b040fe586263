-- ===== src/Net/Sender.antt =====
-- What a stream of src/stream.rs has to do with the bodies that it has sent.
use async_udx.Prelude.{
  ℕ, zero, suc, ◌<◌, ◌≡◌, ◌⊎◌, inl, inr, refl, sym, ◌∙◌, Bool, true, false, List, [], ◌++◌, Option,
  length, length-append, bit_and, arith, if◌then◌else◌,
}
use async_udx.Constants.{udx_header_data, udx_header_end}
use async_udx.Error.{UdxError}
use async_udx.Packet.Header.{Header}
use async_udx.Packet.Types.{Packet}
use async_udx.Stream.State.{local_closed}
use async_udx.Stream.Defs.{Stream, create_packet, create_header, state_typ}
use async_udx.Net.Log.{Log, nth, nth-append_old}
use async_udx.Net.Made.{Made, InRange, state_packet-Made}
use async_udx.Net.Held.{Held}

-- With a header that says that there is data, the body is the one that the log has at its number.
abbrev pub InLog : Log → Header → List ℕ → Type 0
InLog log h body =
    (bit_and h.typ udx_header_data ≡ 0) ⊎ ((h.seq < length log) × (body ≡ nth log h.seq))

abbrev pub Authored : Log → Packet → Type 0
Authored log = Made (InLog log)

-- The next number is the log's length.
abbrev pub Numbered : Log → Stream → Type 0
Numbered log s = InRange s × (s.seq ≡ length log)

-- All packets that the stream holds are from the log.
abbrev pub Mine : Log → Stream → Type 0
Mine log s = Held (Authored log) s × Numbered log s

pub create_header-InLog :
    (log : Log) (s : Stream) (typ : ℕ) (body : List ℕ)
    → typ < 3
    → (bit_and typ udx_header_data ≡ 0) ⊎ ((s.seq < length log) × (body ≡ nth log s.seq))
    → InLog log (create_header s typ) body
unfolding create_header
create_header-InLog log s typ body small c = cleared (local_closed s.state) typ small c
  where
    cleared :
        (closed : Bool) (t : ℕ)
        → t < 3
        → (bit_and t udx_header_data ≡ 0) ⊎ ((s.seq < length log) × (body ≡ nth log s.seq))
        → (bit_and (if closed then bit_and t udx_header_end else t) udx_header_data ≡ 0)
          ⊎ ((s.seq < length log) × (body ≡ nth log s.seq))
    cleared true t h c = inl (masked t h)
      where
        masked : (t : ℕ) → t < 3 → bit_and (bit_and t 2) 1 ≡ 0
        masked zero h = refl
        masked (suc zero) h = refl
        masked (suc (suc zero)) h = refl
        masked (suc (suc (suc t))) h = absurd (omega arith)
    cleared false t h c = c

pub state_packet-Authored :
    (log : Log) (s : Stream) (e : Option UdxError)
    → InRange s
    → Authored log (create_packet s (state_typ e) [])
state_packet-Authored log s e range =
    state_packet-Made (InLog log) s e range
      (λ typ small none_carried. create_header-InLog log s typ [] small (inl none_carried))

-- The log may grow.
pub InLog-append :
    (xs ys : Log) (h : Header) (body : List ℕ) → InLog xs h body → InLog (xs ++ ys) h body
InLog-append xs ys h body (inl none_carried) = inl none_carried
InLog-append xs ys h body (inr (old, same)) =
    inr (omega (arith, length-append xs ys, old), same ∙ sym (nth-append_old xs ys h.seq old))
