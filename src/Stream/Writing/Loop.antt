-- ===== src/Stream/Writing/Loop.antt =====
-- A rule for `write_loop`.
use async_udx.Prelude.{
  ℕ, zero, suc, ◌+◌, ◌<◌, ◌≡◌, subst, List, some, arith, length, leb, ◌==◌, leb→lt, ==→eq, if-cases,
  drop,
}
use async_udx.Error.{Outcome, ok, err, panic}
use async_udx.Stream.Defs.{Stream}
use async_udx.Stream.Receive.{Poll, ready, pending}
use async_udx.Stream.Write.{send_data_packet, write_loop}

-- A write that returns: the invariant at the number of bytes that it answers, or at 0 where it waits.
-- It never fails.
abbrev pub Done : (ℕ → Stream → Type 0) → Stream × Poll (Outcome ℕ) → Type 0
Done P (s, ready (ok n)) = P n s
Done P (s, pending) = P 0 s
Done P (s, ready (err e)) = ⊥
Done P (s, ready panic) = ⊥

module _ (P : ℕ → Stream → Type 0) (waker : ℕ) (buf : List ℕ)
    (step : (w : ℕ) (s : Stream)
      → w < length buf
      → P w s
      → P (w + (send_data_packet (drop w buf) s).1) (send_data_packet (drop w buf) s).0)
    (sleep : (w : ℕ) (s : Stream) → P w s → P w (record s { write_waker = some waker })) where
  -- What every round keeps holds where the loop ends.
  pub write_loop-Done : (fuel w : ℕ) (s : Stream) → P w s → Done P (write_loop fuel waker buf w s)
  unfolding write_loop
  write_loop-Done zero w s h = h
  write_loop-Done (suc fuel) w s h =
      if-cases (Done P) (leb (length buf) w) (λ _. h)
        λ more.
          let next = step w s (leb→lt _ _ more) h in
          if-cases (Done P) ((send_data_packet (drop w buf) s).1 == 0)
            (λ none_sent.
              let same : w + (send_data_packet (drop w buf) s).1 ≡ w =
                omega (arith, ==→eq _ _ none_sent) in
              let kept = subst (λ k. P k (send_data_packet (drop w buf) s).0) same next in
              if-cases (Done P) (w == 0)
                (λ start.
                  sleep 0 _
                    (subst (λ k. P k (send_data_packet (drop w buf) s).0) (==→eq _ _ start) kept))
                (λ _. kept))
            (λ _. write_loop-Done fuel (w + (send_data_packet (drop w buf) s).1) _ next)

pub Done-fst :
    (P : ℕ → Stream → Type 0) (Q : Stream → Type 0) (r : Stream × Poll (Outcome ℕ))
    → ((n : ℕ) (s : Stream) → P n s → Q s)
    → Done P r
    → Q r.0
Done-fst P Q (s, ready (ok n)) f d = f n s d
Done-fst P Q (s, ready (err e)) f d = absurd d
Done-fst P Q (s, ready panic) f d = absurd d
Done-fst P Q (s, pending) f d = f 0 s d
