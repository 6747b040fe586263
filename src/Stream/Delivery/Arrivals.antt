-- ===== src/Stream/Delivery/Arrivals.antt =====
-- The receiver's invariant when packets arrive.
use async_udx.Prelude.{
  ℕ, suc, ◌≤◌, ◌<◌, ◌≡◌, ◌≢◌, refl, subst, ◌⊎◌, List, ◌++◌, none, some, take, length, arith,
  Bool-cases, Option-cases, inl, inr, true, false, leb, leb→le, ltb, ltb→lt, ltb→le, if◌then◌else◌,
  ◌==◌, ==→eq, u32_mod, if-cases,
}
use async_udx.Map.{lookup, insert, lookup-insert, contains_key}
use async_udx.Packet.Types.{IncomingPacket}
use async_udx.Stream.Receive.{Incoming, advance}
use async_udx.Stream.Delivery.Advance.{NoWrap, advance-Advances}
use async_udx.Stream.Delivery.Spec.{prefix, offset, Waits, Delivers}

-- A packet with data as the other side sends it.
pub record Honest (f : ℕ → List ℕ) (p : IncomingPacket) : Type 0 where
  pub body : p.buf ≡ f p.header.seq
  pub unread : p.read_offset ≡ 0
  pub fits : suc p.header.seq < u32_mod

-- What `waits` and `output` say, without the place of `ack`.
pub record Holds (f : ℕ → List ℕ) (m : Incoming) (cursor : ℕ) (out : List ℕ) : Type 0 where
  pub waits : (k : ℕ) (p : IncomingPacket) → lookup k m ≡ some p → Waits f cursor k p
  pub output : out ≡ prefix f cursor ++ take (offset (lookup cursor m)) (f cursor)

lookup_inserted :
    (c k : ℕ) (m : Incoming) (p q : IncomingPacket)
    → lookup k (insert c p m) ≡ some q
    → ((c ≡ k) × (p ≡ q)) ⊎ ((c ≢ k) × (lookup k m ≡ some q))
lookup_inserted c k m p q e = ground (arith, lookup-insert c k p m)

-- A packet from `ack` on goes into the map.
insert-Holds :
    (f : ℕ → List ℕ) (m : Incoming) (ack cursor : ℕ) (out : List ℕ) (p : IncomingPacket)
    → Delivers f m ack cursor out
    → Honest f p
    → ack ≤ p.header.seq
    → Holds f (insert p.header.seq p m) cursor out
insert-Holds f m ack cursor out p v h new = record {
  waits = λ k q e. elim (lookup_inserted p.header.seq k m p q e) [
    | inl (same, p') ↦ subst (Waits f cursor k) p' (subst (λ j. Waits f cursor j p) same fresh)
    | inr (other, e') ↦ v.waits k q e'
  ];
  output = rw at_cursor v.output;
}
  where
    fresh : Waits f cursor p.header.seq p
    fresh = record {
      numbered = refl;
      body = h.body;
      within = omega (arith, h.unread);
      untouched = λ _. h.unread;
      ahead = omega (arith, v.behind);
      fits = h.fits;
    }

    at_cursor : offset (lookup cursor (insert p.header.seq p m)) ≡ offset (lookup cursor m)
    at_cursor = elim (Bool-cases (p.header.seq == cursor)) [
      | inl same ↦
          let e : ack ≡ cursor = omega (arith, v.behind, new, ==→eq _ _ same) in
          rw (lookup-insert p.header.seq cursor p m, same)
            (rw (subst (λ j. lookup j m ≡ none) e v.gap) h.unread)
      | inr other ↦ rw (lookup-insert p.header.seq cursor p m, other)
    ]

pub Holds-NoWrap :
    (f : ℕ → List ℕ) (m : Incoming) (cursor : ℕ) (out : List ℕ) → Holds f m cursor out → NoWrap m
Holds-NoWrap f m cursor out v k here = elim (Option-cases (lookup k m)) [
  | inl e ↦ absurd (clash e here)
  | inr (p, e) ↦ (v.waits k p e).fits
]
  where
    clash : lookup k m ≡ none → contains_key k m ≡ true → ⊥
    clash e h = ground arith

key_found :
    (k : ℕ) (m : Incoming) → contains_key k m ≡ true → (p : IncomingPacket) × (lookup k m ≡ some p)
key_found k m h = ground arith

key_missing : (k : ℕ) (m : Incoming) → contains_key k m ≡ false → lookup k m ≡ none
key_missing k m h = ground arith

-- `ack` moves on over the packets that are there.
advance-Delivers :
    (f : ℕ → List ℕ) (m : Incoming) (ack cursor : ℕ) (out : List ℕ)
    → Holds f m cursor out
    → cursor ≤ ack
    → ((k : ℕ) → cursor ≤ k → k < ack → (p : IncomingPacket) × (lookup k m ≡ some p))
    → Delivers f m (advance (suc (length m)) m ack) cursor out
advance-Delivers f m ack cursor out v behind full =
    let a = advance-Advances m ack (Holds-NoWrap f m cursor out v) in
    record {
      waits = v.waits;
      behind = omega (arith, a.forward);
      gap = key_missing _ m a.stops;
      full = λ k lo hi. elim (Bool-cases (ltb k ack)) [
        | inl old ↦ full k lo (ltb→lt _ _ old)
        | inr new ↦ key_found k m (a.full k (ltb→le _ _ new) hi)
      ];
      output = v.output;
    }

insert_full :
    (k : ℕ) (p q : IncomingPacket) (c : ℕ) (m : Incoming)
    → lookup k m ≡ some q
    → (r : IncomingPacket) × (lookup k (insert c p m) ≡ some r)
insert_full k p q c m e = ground (arith, lookup-insert c k p m)

-- The map that the data branch of `handle_incoming` leaves, and the place to which it moves `ack`.
pub receive-Delivers :
    (f : ℕ → List ℕ) (m : Incoming) (ack cursor : ℕ) (out : List ℕ) (p : IncomingPacket)
    → Delivers f m ack cursor out
    → Honest f p
    → let received = if leb ack p.header.seq then insert p.header.seq p m else m in
      Delivers f received (advance (suc (length received)) received ack) cursor out
receive-Delivers f m ack cursor out p v h =
    if-cases
      (λ received. Delivers f received (advance (suc (length received)) received ack) cursor out)
      (leb ack p.header.seq)
      (λ new.
        advance-Delivers f _ ack cursor out (insert-Holds f m ack cursor out p v h (leb→le _ _ new))
          v.behind (λ k lo hi. let (q, e) = v.full k lo hi in insert_full k p q p.header.seq m e))
      (λ _.
        advance-Delivers f m ack cursor out (record { waits = v.waits; output = v.output }) v.behind
          v.full)
