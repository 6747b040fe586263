-- ===== src/Net/Wire.antt =====
-- What goes from the socket of src/socket.rs on one side to the socket on the other.
use async_udx.Prelude.{
  some-injective, none-some, Bool, true, false, ℕ, zero, suc, ◌+◌, ◌*◌, ◌<◌, ◌≡◌, refl, sym, ap,
  subst, ◌∙◌, List, [], ◌∷◌, ◌++◌, some, none, append-nil, arith, if-both, if-cases, if◌then◌else◌,
  length, length-append, take, drop, take-append, drop-append, drop-drop, ◌==◌, ==→eq, All,
  All-append,
}
use async_udx.Error.{Outcome, ok, err, panic}
use async_udx.Packet.Header.{Header, from_bytes}
use async_udx.Packet.Build.{from_bytes-new_packet}
use async_udx.Packet.Types.{
  Packet, PacketRef, Transmit, Cells, deref, flags_of, packet_len, as_slice, new_packet,
}
use async_udx.Packet.Set.{PacketSet, put_slices, to_transmit}
use async_udx.Packet.Segments.{Equal}
use async_udx.Socket.Events.{EventOutgoing, transmit, transmit_dgram, stream_dropped}
use async_udx.Socket.Defs.{Socket}
use async_udx.Socket.Transmit.{SendEnv, take_event, push_set}
use async_udx.Net.Sets.{AllRefs, OfSet, OfMessage}
use async_udx.Net.Made.{Made}

-- The datagrams that the system sends for a transmit: its contents, or the pieces of the segment size.
pub data Segment (t : Transmit) (bytes : List ℕ) : Type 0 where
  whole : t.segment_size ≡ none → bytes ≡ t.contents → Segment t bytes
  piece :
      (size i : ℕ)
      → t.segment_size ≡ some size
      → i * size < length t.contents
      → bytes ≡ take size (drop (i * size) t.contents)
      → Segment t bytes

-- What the header of a datagram and the bytes behind it are, if it decodes.
abbrev pub Genuine : (Header → List ℕ → Type 0) → List ℕ → Type 0
Genuine H bytes = (h : Header) → from_bytes bytes ≡ ok h → H h (drop 20 bytes)

abbrev pub Carries : (Header → List ℕ → Type 0) → Transmit → Type 0
Carries H t = (bytes : List ℕ) → Segment t bytes → Genuine H bytes

pub Carries-map :
    {G H : Header → List ℕ → Type 0} (t : Transmit)
    → ((h : Header) (body : List ℕ) → G h body → H h body)
    → Carries G t
    → Carries H t
Carries-map t f c bytes cut h e = f h (drop 20 bytes) (c bytes cut h e)

ok-injective : {A : Type 0} {a b : A} → ok a ≡ ok b → a ≡ b
ok-injective e = cc

Made-Genuine : (H : Header → List ℕ → Type 0) (p : Packet) → Made H p → Genuine H (as_slice p.buf)
Made-Genuine H p a h e =
    let (decodes, body) = from_bytes-new_packet a.dest a.header a.body a.fits in
    let bytes : as_slice p.buf ≡ as_slice (new_packet a.dest a.header a.body).buf =
      ap (λ q. as_slice q.buf) a.made in
    let same : a.header ≡ h = ok-injective (sym decodes ∙ sym (ap from_bytes bytes) ∙ e) in
    subst (λ k. H k (drop 20 (as_slice p.buf))) same
      (subst (H a.header) (sym (ap (drop 20) bytes ∙ body)) a.holds)

short_Genuine : (H : Header → List ℕ → Type 0) → Genuine H []
unfolding from_bytes
short_Genuine H h e = absurd (clash e)
  where
    clash : {h : Header} → from_bytes [] ≡ ok h → ⊥
    clash e = ground arith

-- A piece of a buffer is the packet at its front, or a piece of what comes behind it.
piece-append :
    (H : Header → List ℕ → Type 0) (size i : ℕ) (front rest : List ℕ)
    → Genuine H front
    → length front ≡ size
    → ((j : ℕ) → j * size < length rest → Genuine H (take size (drop (j * size) rest)))
    → i * size < length (front ++ rest)
    → Genuine H (take size (drop (i * size) (front ++ rest)))
piece-append H size zero front rest g e later inside =
    let start : zero * size ≡ zero = omega arith in rw (start, ← e, take-append) g
piece-append H size (suc i) front rest g e later inside =
    let product : suc i * size ≡ size + i * size = grind arith in
    let skipped : drop size (front ++ rest) ≡ rest = rw (← e) (drop-append front rest) in
    rw (product, ← drop-drop (i * size) size, skipped)
      (later i (omega (arith, inside, product, e, length-append front rest)))

-- A piece of the segment size is the buffer of one packet.
piece-Genuine :
    (H : Header → List ℕ → Type 0) (cells : Cells) (size i : ℕ) (ps : List PacketRef)
    → AllRefs (Made H) ps
    → Equal size ps
    → i * size < length (put_slices cells ps)
    → Genuine H (take size (drop (i * size) (put_slices cells ps)))
unfolding put_slices packet_len
piece-Genuine H cells size i [] a e = λ inside. absurd (omega (arith, inside))
piece-Genuine H cells size i (p ∷ ps) a e =
    if-cases (λ buf. i * size < length buf → Genuine H (take size (drop (i * size) buf)))
      (flags_of cells p).skip (λ _. piece-Genuine H cells size i ps a.1 e.1)
      (λ _.
        piece-append H size i (as_slice (deref p).buf) (put_slices cells ps)
          (Made-Genuine H (deref p) a.0) e.0 (λ j. piece-Genuine H cells size j ps a.1 e.1))

-- The contents of a set of one packet.
single-Genuine :
    (H : Header → List ℕ → Type 0) (cells : Cells) (ps : List PacketRef)
    → AllRefs (Made H) ps
    → length ps ≡ 1
    → Genuine H (put_slices cells ps)
unfolding put_slices
single-Genuine H cells [] a e = absurd (omega (arith, e))
single-Genuine H cells (p ∷ []) a e =
    if-both (Genuine H) (flags_of cells p).skip (short_Genuine H)
      (rw append-nil (Made-Genuine H (deref p) a.0))
single-Genuine H cells (p ∷ q ∷ ps) a e = absurd (omega (arith, e))

abbrev OnTransmit : (Header → List ℕ → Type 0) → Outcome Transmit → Type 0
OnTransmit H (ok t) = Carries H t
OnTransmit H (err e) = Unit
OnTransmit H panic = Unit

to_transmit-Carries :
    (H : Header → List ℕ → Type 0) (cells : Cells) (set : PacketSet)
    → OfSet (Made H) set
    → OnTransmit H (to_transmit cells set)
unfolding to_transmit
to_transmit-Carries H cells set (size, named, even, all) =
    rw (named, to_transmit) (λ bytes. datagram bytes (length set.packets == 1) refl)
  where
    contents : List ℕ
    contents = put_slices cells set.packets

    cut : (one : Bool) → Transmit
    cut one = record {
      destination = set.dest;
      ecn = none;
      contents = contents;
      segment_size = if one then none else some size;
      src_ip = none;
    }

    datagram :
        (bytes : List ℕ) (one : Bool)
        → (length set.packets == 1) ≡ one
        → Segment (cut one) bytes
        → Genuine H bytes
    datagram bytes true single (whole e b) =
        rw b (single-Genuine H cells set.packets all (==→eq _ _ single))
    datagram bytes true single (piece n i e inside b) = absurd (none-some e)
    datagram bytes false single (whole e b) = absurd (none-some (sym e))
    datagram bytes false single (piece n i e inside b) =
        let same : n ≡ size = sym (some-injective e) in
        rw (b, same)
          (piece-Genuine H cells size i set.packets all even
            (subst (λ k. i * k < length contents) same inside))

-- What the socket makes of a stream's message carries no more than the stream's packets.
pub take_event-Carries :
    (H : Header → List ℕ → Type 0) (env : SendEnv) (m : EventOutgoing) (x : Socket)
    → OfMessage (Made H) m
    → All (Carries H) x.outgoing_transmits
    → All (Carries H) (take_event env m x).0.outgoing_transmits
unfolding take_event
take_event-Carries H env (stream_dropped i) x h v = v
take_event-Carries H env (transmit_dgram d) x h v = absurd h
take_event-Carries H env (transmit set) x h v =
    pushed (to_transmit (env.cells set) set) (to_transmit-Carries H (env.cells set) set h)
  where
    pushed :
        (o : Outcome Transmit)
        → OnTransmit H o
        → All (Carries H) (push_set set o x).0.outgoing_transmits
    pushed (ok t) h = All-append (Carries H) x.outgoing_transmits (t ∷ []) v (h, tt)
    pushed (err e) h = v
    pushed panic h = v
