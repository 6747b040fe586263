-- ===== src/Stream/Delivery/Reads.antt =====
-- The receiver's invariant when packets are read.
use async_udx.Prelude.{
  ℕ, suc, ◌+◌, ◌≤◌, ◌<◌, ◌≡◌, ◌≢◌, refl, ap, ◌∙◌, subst, ◌⊎◌, List, ◌++◌, Option, none, some, take,
  drop, length, arith, add32_lem, append_assoc, append-nil, take-append-drop, take-add, Bool-cases,
  Option-cases, inl, inr, ltb, ltb→lt, ltb→le, ◌==◌, ==→eq,
}
use async_udx.Map.{lookup, remove, insert, lookup-remove, lookup-insert}
use async_udx.Packet.Types.{IncomingPacket}
use async_udx.Stream.Receive.{Incoming, Reader, read_whole}
use async_udx.Stream.Delivery.Spec.{prefix, offset, Waits, Delivers}

abbrev pub ReaderDelivers : (ℕ → List ℕ) → ℕ → List ℕ → Reader → Type 0
ReaderDelivers f ack out r = Delivers f r.incoming ack r.read_cursor (out ++ r.filled)

-- The cursor is behind `ack` where there is a packet at it.
cursor-lt :
    (f : ℕ → List ℕ) (m : Incoming) (ack cursor : ℕ) (out : List ℕ) (p : IncomingPacket)
    → Delivers f m ack cursor out
    → lookup cursor m ≡ some p
    → cursor < ack
cursor-lt f m ack cursor out p v e = elim (Bool-cases (ltb cursor ack)) [
  | inl lt ↦ ltb→lt _ _ lt
  | inr ge ↦
      let same : cursor ≡ ack = omega (arith, v.behind, ltb→le _ _ ge) in
      absurd (no_packet (subst (λ k. lookup k m ≡ some p) same e) v.gap)
]
  where
    no_packet : {o : Option IncomingPacket} → o ≡ some p → o ≡ none → ⊥
    no_packet a b = cc

lookup_removed :
    (c k : ℕ) (m : Incoming) (q : IncomingPacket)
    → lookup k (remove c m) ≡ some q
    → (c ≢ k) × (lookup k m ≡ some q)
lookup_removed c k m q e = ground (arith, lookup-remove c k m)

lookup_kept : (c k : ℕ) (m : Incoming) → c ≢ k → lookup k (remove c m) ≡ lookup k m
lookup_kept c k m h = ground (arith, lookup-remove c k m)

-- Behind the cursor no packet is read in part.
next_offset :
    (f : ℕ → List ℕ) (m : Incoming) (ack c : ℕ) (out : List ℕ)
    → Delivers f m ack c out
    → offset (lookup (suc c) m) ≡ 0
next_offset f m ack c out v = elim (Option-cases (lookup (suc c) m)) [
  | inl e ↦ rw e refl
  | inr (q, e) ↦ rw e ((v.waits (suc c) q e).untouched (omega arith))
]

-- The packet at the cursor is read to its end.
shift-Delivers :
    (f : ℕ → List ℕ) (m : Incoming) (ack c : ℕ) (out : List ℕ) (p : IncomingPacket)
    → Delivers f m ack c out
    → lookup c m ≡ some p
    → Delivers f (remove c m) ack (suc c) (out ++ drop p.read_offset p.buf)
unfolding prefix
shift-Delivers f m ack c out p v e = record {
  waits = λ k q e'.
      let (other, e'') = lookup_removed c k m q e' in
      let w = v.waits k q e'' in
      record {
        numbered = w.numbered;
        body = w.body;
        within = w.within;
        untouched = λ lt. w.untouched (omega arith);
        ahead = omega (arith, w.ahead);
        fits = w.fits;
      };
  behind = cursor-lt f m ack c out p v e;
  gap = ground (arith, lookup-remove c ack m, v.gap);
  full = λ k lo hi.
      let (q, e') = v.full k (omega arith) hi in (q, lookup_kept c k m (omega arith) ∙ e');
  output = rw (
    lookup_kept c (suc c) m (omega arith),
    next_offset f m ack c out v,
    (v.waits c p e).body,
    v.output,
    e,
    append_assoc,
    take-append-drop,
    append-nil,
  );
}

pub read_whole-Delivers :
    (f : ℕ → List ℕ) (ack : ℕ) (out : List ℕ) (r : Reader) (p : IncomingPacket)
    → ReaderDelivers f ack out r
    → lookup r.read_cursor r.incoming ≡ some p
    → ReaderDelivers f ack out (read_whole p r)
unfolding read_whole
read_whole-Delivers f ack out r p v e =
    rw
      (
        add32_lem r.read_cursor 1 (omega (arith, (v.waits r.read_cursor p e).fits)),
        next,
        ← append_assoc,
      )
      (shift-Delivers f r.incoming ack r.read_cursor (out ++ r.filled) p v e)
  where
    next : r.read_cursor + 1 ≡ suc r.read_cursor
    next = omega arith

lookup_put_back :
    (c k : ℕ) (m : Incoming) (p q : IncomingPacket)
    → lookup k (insert c p (remove c m)) ≡ some q
    → ((c ≡ k) × (p ≡ q)) ⊎ ((c ≢ k) × (lookup k m ≡ some q))
lookup_put_back c k m p q e = ground (arith, lookup-insert c k p (remove c m), lookup-remove c k m)

lookup_put_other :
    (c k : ℕ) (m : Incoming) (p : IncomingPacket)
    → c ≢ k
    → lookup k (insert c p (remove c m)) ≡ lookup k m
lookup_put_other c k m p h = ground (arith, lookup-insert c k p (remove c m), lookup-remove c k m)

lookup_put_self :
    (c : ℕ) (m : Incoming) (p : IncomingPacket) → lookup c (insert c p (remove c m)) ≡ some p
lookup_put_self c m p = ground (arith, lookup-insert c c p (remove c m))

-- A front of what is left of the packet at the cursor is read.
pub part-Delivers :
    (f : ℕ → List ℕ) (m : Incoming) (ack c n : ℕ) (out : List ℕ) (p : IncomingPacket)
    → Delivers f m ack c out
    → lookup c m ≡ some p
    → p.read_offset + n ≤ length p.buf
    → Delivers f
        (insert c (record p { read_offset = p.read_offset + n }) (remove c m))
        ack
        c
        (out ++ take n (drop p.read_offset p.buf))
part-Delivers f m ack c n out p v e fits =
    let w = v.waits c p e in
    let put = record p { read_offset = p.read_offset + n } in
    let ahead = cursor-lt f m ack c out p v e in
    let again : Waits f c c put = record {
      numbered = w.numbered;
      body = w.body;
      within = omega (arith, ap length w.body);
      untouched = λ lt. absurd (omega arith);
      ahead = omega arith;
      fits = w.fits;
    } in
    record {
      waits = λ k q e'. elim (lookup_put_back c k m _ q e') [
        | inl (same, p') ↦ subst (Waits f c k) p' (subst (λ j. Waits f c j put) same again)
        | inr (other, e'') ↦ v.waits k q e''
      ];
      behind = v.behind;
      gap = lookup_put_other c ack m put (omega arith) ∙ v.gap;
      full = λ k lo hi. elim (Bool-cases (c == k)) [
        | inl same ↦ (
          put,
          subst (λ j. lookup j (insert c put (remove c m)) ≡ some put) (==→eq _ _ same)
              (lookup_put_self c m put),
        )
        | inr other ↦
            let (q, e') = v.full k lo hi in (q, lookup_put_other c k m put (ground arith) ∙ e')
      ];
      output = rw (lookup_put_self c m put, v.output, e, w.body, take-add, append_assoc);
    }
