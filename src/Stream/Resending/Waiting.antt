-- ===== src/Stream/Resending/Waiting.antt =====
-- The oldest packet that is out, from the timeout of src/stream.rs to its retransmission.
use async_udx.Prelude.{
  ℕ, zero, suc, ◌+◌, ◌-◌, ◌*◌, ◌/◌, ◌≤◌, ◌<◌, ◌≡◌, ◌⊎◌, inl, inr, refl, sym, ap, ◌∙◌, List, [], ◌∷◌,
  ◌++◌, append_assoc, none, some, true, false, arith, if-both, Bool-cases, ltb, max, add64,
  add64_lem, ◌==◌, ==→eq, ltb→lt, none-some,
}
use async_udx.Constants.{instant_limit, udx_mtu}
use async_udx.Error.{Outcome, ok, err}
use async_udx.Map.{lookup}
use async_udx.Packet.Types.{Shared, PacketRef, Cells, shared, update, packet_len}
use async_udx.Stream.Defs.{Stream}
use async_udx.Stream.Timeouts.{
  max_retransmits, on_timeout, poll_check_timeouts, flush_packet, flush_one, flush_loop,
}
use async_udx.Stream.Invariant.Driver.{poll_check_timeouts_keeps}
use async_udx.Stream.Outgoing.{Outgoing, Below, total, weight, lookup-Below, lookup-Small}
use async_udx.Stream.Inflight.Defs.{IsCounted}
use async_udx.Stream.Inflight.Steps.{IsCounted-Invariant}
use async_udx.Stream.Lost.{WaitsAt, flush_loop_lem, poll_check_timeouts_waits}
use async_udx.Stream.Resending.Unchanged.{Frame, Frame-refl, mark_lost-Frame}

-- Where every packet waits, none is in flight.
pub total_waits :
    (cells : Cells) (n c : ℕ) (o : Outgoing)
    → Below n c o
    → ((k : ℕ) (p : Shared) → lookup k o ≡ some p → (cells p.cell).waiting ≡ true)
    → total (weight cells) o ≡ 0
unfolding lookup
total_waits cells n c [] b all = refl
total_waits cells n c ((j, q) ∷ o) b all =
    let later =
      total_waits cells j q.cell o b.2
        λ k p e. all k p (ground (arith, e, lookup-Below j q.cell k o {p = p} b.2)) in
    ground (arith, later, all j q (ground arith))

-- The first packet out that waits is sent again, if the window has room for it.
pub flush_loop_sends :
    (n i k : ℕ) (p : Shared) (s : Stream)
    → i ≤ k
    → k < i + n
    → ((j : ℕ) → j < k → lookup j s.outgoing ≡ none)
    → lookup k s.outgoing ≡ some p
    → (s.cells p.cell).waiting ≡ true
    → add64 s.inflight (packet_len p.packet) ≤ s.cwnd
    → (more : List PacketRef) × ((flush_loop n i s).send_queue ≡ s.send_queue ++ shared p ∷ more)
unfolding flush_loop flush_one flush_packet
flush_loop_sends zero i k p s lo hi oldest out waits room = absurd (omega (arith, lo, hi))
flush_loop_sends (suc n) i k p s lo hi oldest out waits room = elim (Bool-cases (i == k)) [
  | inl same ↦
      let f = s.cells p.cell in
      let t = record s {
        cells = update s.cells p.cell (record f { waiting = false });
        inflight = add64 s.inflight (packet_len p.packet);
        send_queue = s.send_queue ++ shared p ∷ [];
      } in
      let here : lookup i s.outgoing ≡ some p = rw (==→eq _ _ same) out in
      let fits : ltb s.cwnd (add64 s.inflight (packet_len p.packet)) ≡ false =
        ground (arith, room) in
      let sent : flush_one i s ≡ some t = rw (here, flush_one, waits, fits) refl in
      let (again, later) = (flush_loop_lem n (i + 1) t).3 in
      rw (sent, flush_loop) (again, rw append_assoc at later)
  | inr other ↦
      let less : i < k = ground (arith, other, lo) in
      let skipped : flush_one i s ≡ some s = rw (oldest i less, flush_one) refl in
      rw (skipped, flush_loop)
        (flush_loop_sends n (i + 1) k p s (omega (arith, less)) (omega (arith, hi)) oldest out waits
          room)
]

-- The packet of number `k` is the oldest that is out, and none below `remote_acked` is.
pub record Oldest (k : ℕ) (p : Shared) (s : Stream) : Type 0 where
  pub first : (j : ℕ) → j < k → lookup j s.outgoing ≡ none
  pub out : lookup k s.outgoing ≡ some p
  pub open_range : s.remote_acked ≤ k

module _ (now k : ℕ) (p : Shared) (s : Stream) (v : IsCounted s) (o : Oldest k p s)
    (soon : now + 2 * s.timings.rto < instant_limit) where
  abbrev pub marked : Stream × Outcome (Unit {0})
  marked = poll_check_timeouts true now s

  in_range :
      (j : ℕ) (q : Shared) → lookup j s.outgoing ≡ some q → (s.remote_acked ≤ j) × (j < s.seq)
  in_range j q e = (
    elim (Bool-cases (ltb j k)) [
      | inl less ↦ absurd (none-some (sym (o.first j (ltb→lt _ _ less)) ∙ e))
      | inr more ↦ ground (arith, more, o.open_range)
    ],
    (lookup-Below s.seq s.next_cell j s.outgoing {p = q} v.sorted e).0,
  )

  some_out : s.remote_acked < s.seq
  some_out = let r = in_range k p o.out in omega (arith, r)

  pub marked-Frame : Frame s marked.0
  unfolding poll_check_timeouts on_timeout
  marked-Frame =
      if-both (λ (r : Stream × Outcome (Unit {0})). Frame s r.0) (s.remote_acked == s.seq)
        (Frame-refl s)
        (if-both (λ (r : Stream × Outcome (Unit {0})). Frame s r.0)
          (ltb (now + 2 * s.timings.rto) instant_limit)
          (mark_lost-Frame (s.seq - s.remote_acked) s.remote_acked
            (record s { rto_timeout = now + 2 * s.timings.rto; cwnd = max udx_mtu (s.cwnd / 2) }))
          (Frame-refl s))

  -- The oldest packet waits, and the window has room for it.
  abbrev pub Ready : Stream → Type 0
  Ready t =
      Oldest k p t
      × (k < t.seq)
      × ((t.cells p.cell).waiting ≡ true)
      × (add64 t.inflight (packet_len p.packet) ≤ t.cwnd)

  ready :
      (t : Stream)
      → t.outgoing ≡ s.outgoing
      → Frame s t
      → IsCounted t
      → ((j : ℕ) → s.remote_acked ≤ j → j < s.seq → WaitsAt t j)
      → 1400 ≤ t.cwnd
      → Ready t
  ready t same frame counted waits window =
      let there : lookup k t.outgoing ≡ some p = ap (lookup k) same ∙ o.out in
      let (lo, hi) = in_range k p o.out in
      let all_wait : (j : ℕ) (q : Shared)
          → lookup j t.outgoing ≡ some q
          → (t.cells q.cell).waiting ≡ true =
        λ j q e. let r = in_range j q (sym (ap (lookup j) same) ∙ e) in waits j r.0 r.1 q e in
      let landed : total (weight t.cells) t.outgoing ≡ 0 =
        total_waits t.cells t.seq t.next_cell t.outgoing counted.sorted all_wait in
      let none_flies : t.inflight ≡ 0 = counted.flying ∙ landed in
      let small = lookup-Small k t.outgoing {p = p} counted.small there in
      (
        record {
          first = λ j less. ap (lookup j) same ∙ o.first j less;
          out = there;
          open_range = omega (arith, frame.0, o.open_range);
        },
        omega (arith, hi, frame.1),
        waits k lo hi p there,
        omega (arith, add64_lem t.inflight (packet_len p.packet), none_flies, small, window),
      )

  -- What the timeout leaves if it does not fail.
  pub marked_ready : (marked.1 ≡ err max_retransmits) ⊎ ((marked.1 ≡ ok tt) × Ready marked.0)
  marked_ready =
      let (same, window, _, verdict) = poll_check_timeouts_waits now s some_out soon in
      let counted =
        poll_check_timeouts_keeps IsCounted (λ _. Unit) (λ _. Unit) Unit IsCounted-Invariant true
          now s (λ _. tt) v in
      elim verdict [
        | inr (e, _) ↦ inl e
        | inl (e, waits) ↦
            inr (e, ready marked.0 same marked-Frame counted waits (omega (arith, window)))
      ]
