-- ===== src/Stream/Delivery/Advance.antt =====
-- The loop that moves `ack` over the packets that are there.
use async_udx.Prelude.{
  ℕ, zero, suc, ◌+◌, ◌≤◌, ◌<◌, ◌≡◌, subst, [], ◌∷◌, true, false, arith, length, ltb, ◌==◌,
  if◌then◌else◌, Bool-cases, inl, inr, u32_mod, add32_lem,
}
use async_udx.Map.{lookup, contains_key}
use async_udx.Stream.Receive.{Incoming, advance}

-- No packet has the last sequence number there is, so that the next one does not wrap around.
abbrev pub NoWrap : Incoming → Type 0
NoWrap m = (k : ℕ) → contains_key k m ≡ true → suc k < u32_mod

-- The entries from the key `a` on.
count_from : ℕ → Incoming → ℕ
count_from a [] = 0
count_from a ((k, p) ∷ m) = (if ltb k a then 0 else 1) + count_from a m

count_from-le : (a : ℕ) (m : Incoming) → count_from a m ≤ length m
unfolding count_from
count_from-le a [] = omega arith
count_from-le a ((k, p) ∷ m) = ground (arith, count_from-le a m)

count_from_mono : (a : ℕ) (m : Incoming) → count_from (suc a) m ≤ count_from a m
unfolding count_from
count_from_mono a [] = omega arith
count_from_mono a ((k, p) ∷ m) = ground (arith, count_from_mono a m)

count_from_falls :
    (a : ℕ) (m : Incoming) → contains_key a m ≡ true → count_from (suc a) m < count_from a m
unfolding count_from lookup
count_from_falls a [] h = cc
count_from_falls a ((k, p) ∷ m) h = ground (arith, count_from_falls a m, count_from_mono a m)

-- The loop goes from `a` to `b`: over keys that are there, up to the first that is not.
pub record Advances (m : Incoming) (a b : ℕ) : Type 0 where
  pub forward : a ≤ b
  pub stops : contains_key b m ≡ false
  pub full : (k : ℕ) → a ≤ k → k < b → contains_key k m ≡ true

advance_step :
    (m : Incoming) (a b : ℕ) → contains_key a m ≡ true → Advances m (suc a) b → Advances m a b
advance_step m a b here v = record {
  forward = omega (arith, v.forward);
  stops = v.stops;
  full = λ k lo hi. elim (Bool-cases (k == a)) [
    | inl same ↦ subst (λ j. contains_key j m ≡ true) (ground arith) here
    | inr other ↦ v.full k (ground arith) hi
  ];
}

advance_fuel :
    (n : ℕ) (m : Incoming) (a : ℕ) → NoWrap m → count_from a m < n → Advances m a (advance n m a)
unfolding advance
advance_fuel zero m a w h = elim h [ ]
advance_fuel (suc n) m a w h = elim (Bool-cases (contains_key a m)) [
  | inl here ↦
      rw (here, advance)
        (advance_step m a _ here (
          rw (add32_lem a 1 (omega (arith, w a here)), next)
            (advance_fuel n m (suc a) w (omega (arith, count_from_falls a m here)))))
  | inr gone ↦
      rw (gone, advance)
        (record { forward = omega arith; stops = gone; full = λ k lo hi. absurd (omega arith) })
]
  where
    next : a + 1 ≡ suc a
    next = omega arith

-- With one round more than there are packets, none of which has the last number there is, the loop
-- ends by its test: `ack` passes over exactly
-- the packets that are there in a row, and the one that it stops at is missing.
pub advance-Advances :
    (m : Incoming) (a : ℕ) → NoWrap m → Advances m a (advance (suc (length m)) m a)
advance-Advances m a w = advance_fuel (suc (length m)) m a w (omega (arith, count_from-le a m))
