-- ===== src/Stream/Resending/Unchanged.antt =====
-- What the timeout and the retransmission of src/stream.rs leave alone.
use async_udx.Prelude.{
  ℕ, zero, suc, ◌+◌, ◌≡◌, inl, inr, refl, ◌∙◌, not, if-both, Option-cases, ltb, add64,
}
use async_udx.Constants.{udx_max_transmits}
use async_udx.Map.{lookup}
use async_udx.Packet.Types.{packet_len}
use async_udx.Stream.Defs.{Stream}
use async_udx.Stream.Timeouts.{
  mark_packet, mark_one, mark_lost, flush_packet, flush_one, flush_loop,
}
use async_udx.Stream.Invariant.{OnSome}

-- What marking packets and sending them again leave alone.
abbrev pub Frame : Stream → Stream → Type 0
Frame s t =
    (t.remote_acked ≡ s.remote_acked)
    × (t.seq ≡ s.seq)
    × (t.send_tx ≡ s.send_tx)
    × (t.send_open ≡ s.send_open)

pub Frame-refl : (s : Stream) → Frame s s
Frame-refl s = (refl, refl, refl, refl)

Frame-trans : (s t u : Stream) → Frame s t → Frame t u → Frame s u
Frame-trans s t u f g = (g.0 ∙ f.0, g.1 ∙ f.1, g.2 ∙ f.2, g.3 ∙ f.3)

mark_one-Frame : (i : ℕ) (s : Stream) → OnSome (Frame s) (mark_one i s)
unfolding mark_one mark_packet
mark_one-Frame i s = elim (Option-cases (lookup i s.outgoing)) [
  | inl e ↦ rw (e, mark_one) (Frame-refl s)
  | inr (p, e) ↦
      rw (e, mark_one)
        (if-both (OnSome (Frame s)) (s.cells p.cell).waiting (Frame-refl s) (
          if-both (OnSome (Frame s)) (ltb udx_max_transmits (s.cells p.cell).transmits) tt
            (refl, refl, refl, refl)))
]

pub mark_lost-Frame : (n i : ℕ) (s : Stream) → Frame s (mark_lost n i s).0
unfolding mark_lost
mark_lost-Frame zero i s = Frame-refl s
mark_lost-Frame (suc n) i s = elim (Option-cases (mark_one i s)) [
  | inl e ↦ rw (e, mark_lost) (Frame-refl s)
  | inr (t, e) ↦
      let first : Frame s t = rw e at (mark_one-Frame i s) in
      rw (e, mark_lost)
        (Frame-trans s t (mark_lost n (i + 1) t).0 first (mark_lost-Frame n (i + 1) t))
]

flush_one-Frame : (i : ℕ) (s : Stream) → OnSome (Frame s) (flush_one i s)
unfolding flush_one flush_packet
flush_one-Frame i s = elim (Option-cases (lookup i s.outgoing)) [
  | inl e ↦ rw (e, flush_one) (Frame-refl s)
  | inr (p, e) ↦
      rw (e, flush_one)
        (if-both (OnSome (Frame s)) (not (s.cells p.cell).waiting) (Frame-refl s) (
          if-both (OnSome (Frame s)) (ltb s.cwnd (add64 s.inflight (packet_len p.packet))) tt
            (refl, refl, refl, refl)))
]

pub flush_loop-Frame : (n i : ℕ) (s : Stream) → Frame s (flush_loop n i s)
unfolding flush_loop
flush_loop-Frame zero i s = Frame-refl s
flush_loop-Frame (suc n) i s = elim (Option-cases (flush_one i s)) [
  | inl e ↦ rw (e, flush_loop) (Frame-refl s)
  | inr (t, e) ↦
      let first : Frame s t = rw e at (flush_one-Frame i s) in
      rw (e, flush_loop)
        (Frame-trans s t (flush_loop n (i + 1) t) first (flush_loop-Frame n (i + 1) t))
]
