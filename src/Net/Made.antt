-- ===== src/Net/Made.antt =====
-- Packets that a stream of src/stream.rs makes, with what holds of their headers and bodies.
use async_udx.Prelude.{
  Bool, ℕ, zero, suc, ◌<◌, ◌≡◌, refl, List, [], none, some, Option, u32_mod, bit_and, arith,
  if-both, if◌then◌else◌,
}
use async_udx.Constants.{udx_header_end}
use async_udx.Error.{UdxError}
use async_udx.Packet.Header.{Header}
use async_udx.Packet.Codec.{Fits}
use async_udx.Packet.Types.{SocketAddr, Packet, new_packet}
use async_udx.Stream.State.{local_closed}
use async_udx.Stream.Defs.{Stream, create_packet, create_header, state_typ}

-- A packet as `Packet::new` builds it, from a header that fits.
pub record Made (H : Header → List ℕ → Type 0) (p : Packet) : Type 0 where
  pub dest : SocketAddr
  pub header : Header
  pub body : List ℕ
  pub made : p ≡ new_packet dest header body
  pub fits : Fits header
  pub holds : H header body

-- The numbers that go into a header fit.
abbrev pub InRange : Stream → Type 0
InRange s = (s.seq < u32_mod) × (s.ack < u32_mod) × (s.remote_id < u32_mod)

typ_fits :
    (closed : Bool) (typ : ℕ) → typ < 3 → (if closed then bit_and typ udx_header_end else typ) < 256
typ_fits closed zero h = if-both (λ t. t < 256) closed (omega arith) (omega arith)
typ_fits closed (suc zero) h = if-both (λ t. t < 256) closed (omega arith) (omega arith)
typ_fits closed (suc (suc zero)) h = if-both (λ t. t < 256) closed (omega arith) (omega arith)
typ_fits closed (suc (suc (suc t))) h = absurd (omega arith)

pub create_packet-Made :
    (H : Header → List ℕ → Type 0) (s : Stream) (typ : ℕ) (body : List ℕ)
    → InRange s
    → typ < 3
    → H (create_header s typ) body
    → Made H (create_packet s typ body)
unfolding create_packet create_header
create_packet-Made H s typ body (seq, ack, id) small holds = record {
  dest = s.remote_addr;
  header = create_header s typ;
  body = body;
  made = refl;
  fits = record {
    typ = typ_fits (local_closed s.state) typ small;
    data_offset = omega arith;
    stream_id = id;
    recv_win = omega arith;
    seq = seq;
    ack = ack;
  };
  holds = holds;
}

-- The packet that acknowledges, or ends.
pub state_packet-Made :
    (H : Header → List ℕ → Type 0) (s : Stream) (e : Option UdxError)
    → InRange s
    → ((typ : ℕ) → typ < 3 → bit_and typ 1 ≡ 0 → H (create_header s typ) [])
    → Made H (create_packet s (state_typ e) [])
state_packet-Made H s none range holds =
    create_packet-Made H s 0 [] range (omega arith) (holds 0 (omega arith) refl)
state_packet-Made H s (some e) range holds =
    create_packet-Made H s 2 [] range (omega arith) (holds 2 (omega arith) refl)

pub Made-map :
    {G H : Header → List ℕ → Type 0} (p : Packet)
    → ((h : Header) (body : List ℕ) → G h body → H h body)
    → Made G p
    → Made H p
Made-map p f a = record {
  dest = a.dest;
  header = a.header;
  body = a.body;
  made = a.made;
  fits = a.fits;
  holds = f a.header a.body a.holds;
}
