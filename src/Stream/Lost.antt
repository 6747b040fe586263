-- ===== src/Stream/Lost.antt =====
-- Timeouts and retransmissions of src/stream.rs: what is taken for lost, and what is sent again.
use async_udx.Prelude.{
  ℕ, zero, suc, ◌+◌, ◌-◌, ◌*◌, ◌/◌, ◌≤◌, ◌<◌, ◌≡◌, ◌⊎◌, inl, inr, refl, sym, ◌∙◌, List, [], ◌∷◌,
  ◌++◌, Option, none, some, true, false, arith, not, if-cases, ltb, ltb→lt, ltb→le, max, add64,
  Bool-cases, Option-cases, ◌==◌, ==_refl, ==→eq, subst, ap, append-nil, append_assoc,
}
use async_udx.Constants.{udx_max_transmits, udx_mtu, instant_limit}
use async_udx.Error.{Outcome, ok, err}
use async_udx.Map.{lookup}
use async_udx.Packet.Types.{Shared, PacketRef, shared, packet_len}
use async_udx.Stream.Defs.{Stream}
use async_udx.Stream.Timeouts.{
  max_retransmits, mark_packet, mark_one, mark_lost, on_timeout, poll_check_timeouts, flush_packet,
  flush_one, flush_loop, flush_waiting_packets,
}

-- What marking one packet leaves: the same packets out, those that waited still waiting, and the
-- packet of number `i` waiting too.
abbrev pub Kept : Stream → Stream → Type 0
Kept s t =
    (t.outgoing ≡ s.outgoing)
    × (t.cwnd ≡ s.cwnd)
    × (t.rto_timeout ≡ s.rto_timeout)
    × ((c : ℕ) → (s.cells c).waiting ≡ true → (t.cells c).waiting ≡ true)

abbrev pub WaitsAt : Stream → ℕ → Type 0
WaitsAt s i = (p : Shared) → lookup i s.outgoing ≡ some p → (s.cells p.cell).waiting ≡ true

-- A packet that has been sent again too often.
abbrev pub Spent : Stream → ℕ → Type 0
Spent s i =
    (p : Shared) × (lookup i s.outgoing ≡ some p)
    × ((s.cells p.cell).waiting ≡ false)
    × (udx_max_transmits < (s.cells p.cell).transmits)

Marked : ℕ → Stream → Option Stream → Type 0
Marked i s none = Spent s i
Marked i s (some t) = Kept s t × WaitsAt t i

some_inj : (p q : Shared) → some p ≡ some q → p ≡ q
some_inj p q e = cc

mark_one_lem : (i : ℕ) (s : Stream) → Marked i s (mark_one i s)
unfolding mark_one mark_packet Marked
mark_one_lem i s = elim (Option-cases (lookup i s.outgoing)) [
  | inl e ↦ rw (e, mark_one) ((refl, refl, refl, λ c w. w), λ q f. absurd (clash q (sym e ∙ f)))
  | inr (p, e) ↦
      rw (e, mark_one)
        (if-cases (Marked i s) (s.cells p.cell).waiting
          (λ waits. ((refl, refl, refl, λ c w. w), λ q f. here p q waits (sym e ∙ f)))
          λ live.
            if-cases (Marked i s) (ltb udx_max_transmits (s.cells p.cell).transmits)
              (λ spent. (p, e, live, ltb→lt _ _ spent))
              (λ _. (
                (refl, refl, refl, λ c w. ground (arith, w)),
                λ q f. rw (← some_inj p q (sym e ∙ f), ==_refl) refl,
              )))
]
  where
    clash : (q : Shared) → none ≡ some q → ⊥
    clash q f = cc

    here :
        (p q : Shared)
        → (s.cells p.cell).waiting ≡ true
        → some p ≡ some q
        → (s.cells q.cell).waiting ≡ true
    here p q w f = rw (some_inj p q f) at w

Kept-trans : (s t u : Stream) → Kept s t → Kept t u → Kept s u
Kept-trans s t u k l = (l.0 ∙ k.0, l.1 ∙ k.1, l.2 ∙ k.2, λ c w. l.3 c (k.3 c w))

WaitsAt-Kept : (s t : Stream) (i : ℕ) → Kept s t → WaitsAt s i → WaitsAt t i
WaitsAt-Kept s t i k w p e = k.3 p.cell (w p (sym (ap (lookup i) k.0) ∙ e))

-- All packets of a range wait, or one of them is spent.
abbrev pub Verdict : ℕ → ℕ → Stream → Outcome (Unit {0}) → Type 0
Verdict n i t o =
    ((o ≡ ok tt) × ((k : ℕ) → i ≤ k → k < i + n → WaitsAt t k))
    ⊎ ((o ≡ err max_retransmits) × ((k : ℕ) × (i ≤ k) × (k < i + n) × Spent t k))

widen :
    (n i : ℕ) (t : Stream) (o : Outcome (Unit {0}))
    → WaitsAt t i
    → Verdict n (i + 1) t o
    → Verdict (suc n) i t o
widen n i t o w (inl (e, all)) = inl (
  e,
  λ k lo hi. elim (Bool-cases (i == k)) [
    | inl same ↦ subst (WaitsAt t) (==→eq _ _ same) w
    | inr other ↦ all k (ground (arith, other, lo)) (omega (arith, hi))
  ],
)
widen n i t o w (inr (e, (k, lo, hi, spent))) = inr (e, (k, omega arith, omega arith, spent))

pub mark_lost_lem :
    (n i : ℕ) (s : Stream) → let r = mark_lost n i s in Kept s r.0 × Verdict n i r.0 r.1
unfolding mark_lost Marked
mark_lost_lem zero i s = ((refl, refl, refl, λ c w. w), inl (refl, λ k lo hi. absurd (omega arith)))
mark_lost_lem (suc n) i s = elim (Option-cases (mark_one i s)) [
  | inl e ↦
      rw (e, mark_lost)
        (
          (refl, refl, refl, λ c w. w),
          inr (refl, (i, omega arith, omega arith, rw e at (mark_one_lem i s))),
        )
  | inr (t, e) ↦
      let (kept, waits) : Kept s t × WaitsAt t i = rw e at (mark_one_lem i s) in
      let (later, verdict) = mark_lost_lem n (i + 1) t in
      let end = mark_lost n (i + 1) t in
      rw (e, mark_lost)
        (
          Kept-trans s t end.0 kept later,
          widen n i end.0 end.1 (WaitsAt-Kept t end.0 i later waits) verdict,
        )
]

-- When the timer has fired while `remote_acked` is below `seq`, and the time for the next one is in the
-- range of the clock: it is set again and the window is halved, though not below one packet. Then every
-- packet that is out with a number from `remote_acked` on and below `seq` waits to be sent again; or the
-- call fails with `max_retransmits`, because one of these, which does not wait, was sent again more than
-- five times. What is out stays out. This says nothing of the marks of packets with other numbers, which
-- an acknowledgement above `seq` can leave out.
pub poll_check_timeouts_waits :
    (now : ℕ) (s : Stream)
    → s.remote_acked < s.seq
    → now + 2 * s.timings.rto < instant_limit
    → let r = poll_check_timeouts true now s in
      (r.0.outgoing ≡ s.outgoing)
      × (r.0.cwnd ≡ max udx_mtu (s.cwnd / 2))
      × (r.0.rto_timeout ≡ now + 2 * s.timings.rto)
      × (((r.1 ≡ ok tt) × ((k : ℕ) → s.remote_acked ≤ k → k < s.seq → WaitsAt r.0 k))
          ⊎ ((r.1 ≡ err max_retransmits)
              × ((k : ℕ) × (s.remote_acked ≤ k) × (k < s.seq) × Spent r.0 k)))
unfolding poll_check_timeouts on_timeout
poll_check_timeouts_waits now s out soon =
    let n = s.seq - s.remote_acked in
    let later = record s {
      rto_timeout = now + 2 * s.timings.rto;
      cwnd = max udx_mtu (s.cwnd / 2);
    } in
    let (kept, verdict) = mark_lost_lem n s.remote_acked later in
    let all : s.remote_acked + n ≡ s.seq = omega (arith, out) in
    let differ : (s.remote_acked == s.seq) ≡ false = ground (arith, out) in
    let in_time : ltb (now + 2 * s.timings.rto) instant_limit ≡ true = ground (arith, soon) in
    rw (differ, in_time)
      (
        kept.0,
        kept.1,
        kept.2,
        elim verdict [
          | inl (e, waits) ↦ inl (e, λ k lo hi. waits k lo (omega (arith, hi, all)))
          | inr (e, (k, lo, hi, spent)) ↦ inr (e, (k, lo, omega (arith, hi, all), spent))
        ],
      )

-- What sending waiting packets again leaves.
abbrev pub Resent : Stream → Stream → Type 0
Resent s t =
    (t.inflight ≤ max s.inflight s.cwnd)
    × (t.cwnd ≡ s.cwnd)
    × (t.outgoing ≡ s.outgoing)
    × ((again : List PacketRef) × (t.send_queue ≡ s.send_queue ++ again))

Flushed : Stream → Option Stream → Type 0
Flushed s none = Unit
Flushed s (some t) = Resent s t

unchanged : (s : Stream) → Resent s s
unchanged s = (omega arith, refl, refl, ([], sym (append-nil s.send_queue)))

flush_one_lem : (i : ℕ) (s : Stream) → Flushed s (flush_one i s)
unfolding flush_one flush_packet Flushed
flush_one_lem i s = elim (Option-cases (lookup i s.outgoing)) [
  | inl e ↦ rw (e, flush_one) (unchanged s)
  | inr (p, e) ↦
      rw (e, flush_one)
        (if-cases (Flushed s) (not (s.cells p.cell).waiting) (λ _. unchanged s)
          λ _.
            if-cases (Flushed s) (ltb s.cwnd (add64 s.inflight (packet_len p.packet))) (λ _. tt)
              λ room. (omega (arith, ltb→le _ _ room), refl, refl, (shared p ∷ [], refl)))
]

Resent-trans : (s t u : Stream) → Resent s t → Resent t u → Resent s u
Resent-trans s t u (a, b, c, (xs, d)) (e, f, g, (ys, h)) =
    (omega (arith, a, b, e), f ∙ b, g ∙ c, (xs ++ ys, h ∙ rw (d, append_assoc) refl))

pub flush_loop_lem : (n i : ℕ) (s : Stream) → Resent s (flush_loop n i s)
unfolding flush_loop Flushed
flush_loop_lem zero i s = unchanged s
flush_loop_lem (suc n) i s = elim (Option-cases (flush_one i s)) [
  | inl e ↦ rw (e, flush_loop) (unchanged s)
  | inr (t, e) ↦
      rw (e, flush_loop)
        (Resent-trans s t (flush_loop n (i + 1) t) (rw e at (flush_one_lem i s))
          (flush_loop_lem n (i + 1) t))
]

-- Sending again never takes the bytes in flight over the congestion window, if they are not over it
-- before; it only adds to the end of the send queue, and the packets that are out stay so.
pub flush_waiting_packets_window :
    (s : Stream)
    → let t = flush_waiting_packets s in
      (t.inflight ≤ max s.inflight s.cwnd)
      × (t.cwnd ≡ s.cwnd)
      × (t.outgoing ≡ s.outgoing)
      × ((again : List PacketRef) × (t.send_queue ≡ s.send_queue ++ again))
unfolding flush_waiting_packets
flush_waiting_packets_window s = flush_loop_lem (s.seq - s.remote_acked) s.remote_acked s
