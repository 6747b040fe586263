-- ===== src/Stream/Acked.antt =====
-- What an acknowledgement of src/stream.rs leaves to be acknowledged.
use async_udx.Prelude.{
  ℕ, zero, suc, ◌+◌, ◌-◌, ◌≤◌, ◌<◌, ◌≡◌, ◌⊎◌, inl, inr, refl, sym, ◌∙◌, none, arith, if-cases,
  if-both, ltb, leb, leb→le, leb→lt, add32, add32_lem, u32_mod, max, subst, Option-cases,
  Bool-cases, ◌==◌, ==→eq,
}
use async_udx.Constants.{instant_limit}
use async_udx.Error.{Outcome}
use async_udx.Map.{lookup, remove, lookup-remove}
use async_udx.Stream.Defs.{Stream}
use async_udx.Stream.Outgoing.{Outgoing}
use async_udx.Stream.Ack.{
  ack_packet, handle_remote_ack_for_packet, ack_loop, wake_writer, reset_timeout,
  handle_incoming_max_remote_ack,
}

ack_packet_outgoing :
    (now i : ℕ) (s : Stream)
    → ((ack_packet now i s).outgoing ≡ remove i s.outgoing)
      × ((ack_packet now i s).remote_acked ≡ s.remote_acked)
unfolding ack_packet handle_remote_ack_for_packet
ack_packet_outgoing now i s = elim (Option-cases (lookup i s.outgoing)) [
  | inl e ↦ rw (e, ack_packet) (refl, refl)
  | inr (p, e) ↦ rw (e, ack_packet) (refl, refl)
]

-- The packets from `first` on up to `last` are gone, and the others are as they were.
abbrev pub Gone : ℕ → ℕ → Outgoing → Outgoing → Type 0
Gone first last before after =
    (k : ℕ)
    → ((first ≤ k) × (k < last) × (lookup k after ≡ none))
      ⊎ (((k < first) ⊎ (last ≤ k)) × (lookup k after ≡ lookup k before))

-- One more packet at the front.
Gone-suc :
    (first n : ℕ) (before after : Outgoing)
    → Gone (suc first) (suc first + n) (remove first before) after
    → Gone first (first + suc n) before after
Gone-suc first n before after h k = elim (h k) [
  | inl (lo, hi, e) ↦ inl (omega arith, omega arith, e)
  | inr (out, e) ↦ elim (Bool-cases (first == k)) [
    | inl same ↦ inl (
      omega (arith, ==→eq _ _ same),
      omega (arith, ==→eq _ _ same),
      e ∙ (lookup-remove first k before ∙ rw same refl),
    )
    | inr other ↦
        inr (ground (arith, out, other), e ∙ (lookup-remove first k before ∙ rw other refl))
  ]
]

ack_loop_lem :
    (now n : ℕ) (s : Stream)
    → s.remote_acked + n < u32_mod
    → let t = ack_loop now n s in
      (t.remote_acked ≡ s.remote_acked + n)
      × Gone s.remote_acked (s.remote_acked + n) s.outgoing t.outgoing
unfolding ack_loop ack_packet
ack_loop_lem now zero s fits = (omega arith, λ k. inr (omega arith, refl))
ack_loop_lem now (suc n) s fits =
    let first = s.remote_acked in
    let moved = record s { remote_acked = add32 first 1 } in
    let next = ack_packet now first moved in
    let one = add32_lem first 1 (omega arith) in
    let acked = ack_packet_outgoing now first moved in
    let at : next.remote_acked ≡ suc first = omega (arith, acked.1, one) in
    let (r, gone) = ack_loop_lem now n next (omega (arith, at)) in
    (omega (arith, r, at), Gone-suc first n s.outgoing _ (rw (at, acked.0) at gone))

wake_writer_lem :
    (s : Stream)
    → ((wake_writer s).outgoing ≡ s.outgoing) × ((wake_writer s).remote_acked ≡ s.remote_acked)
unfolding wake_writer
wake_writer_lem s =
    if-both (λ (t : Stream). (t.outgoing ≡ s.outgoing) × (t.remote_acked ≡ s.remote_acked)) _
      (refl, refl) (refl, refl)

-- An acknowledgement of everything before `ack` acknowledges just that, as long as `ack` is in the
-- range of the sequence numbers: `remote_acked` is the larger of the two then, the packets from where it
-- was up to `ack` are gone from those that are out, and every other packet stays.
pub handle_incoming_max_remote_ack-Gone :
    (now ack : ℕ) (s : Stream)
    → ack < u32_mod
    → let t = (handle_incoming_max_remote_ack now ack s).0 in
      (t.remote_acked ≡ max s.remote_acked ack) × Gone s.remote_acked ack s.outgoing t.outgoing
unfolding handle_incoming_max_remote_ack reset_timeout
handle_incoming_max_remote_ack-Gone now ack s fits =
    if-cases (λ (r : Stream × Outcome (Unit {0})). Acknowledged r.0) (leb ack s.remote_acked)
      (λ old. (omega (arith, leb→le _ _ old), λ k. inr (omega (arith, leb→le _ _ old), refl)))
      (λ fresh.
        let n = ack - s.remote_acked in
        let more : s.remote_acked < ack = leb→lt _ _ fresh in
        let all : s.remote_acked + n ≡ ack = omega (arith, more) in
        let (r, gone) = ack_loop_lem now n s (omega (arith, all)) in
        let moved = wake_writer (ack_loop now n s) in
        let same = wake_writer_lem (ack_loop now n s) in
        let done : Acknowledged moved = (
          omega (arith, same.1, r, more),
          λ k. elim (gone k) [
            | inl (lo, hi, e) ↦
                inl (lo, omega (arith, all), subst (λ o. lookup k o ≡ none) (sym same.0) e)
            | inr (out, e) ↦ inr (
              omega (arith, all, out),
              subst (λ o. lookup k o ≡ lookup k s.outgoing) (sym same.0) e,
            )
          ],
        ) in
        if-both (λ (r : Stream × Outcome (Unit {0})). Acknowledged r.0)
          (ltb (now + moved.timings.rto) instant_limit) done done)
  where
    Acknowledged : Stream → Type 0
    Acknowledged t =
        (t.remote_acked ≡ max s.remote_acked ack) × Gone s.remote_acked ack s.outgoing t.outgoing
