-- ===== src/Net/Log.antt =====
-- The bodies that a stream has sent, in the order of their numbers.
use async_udx.Prelude.{
  take-nil, ℕ, zero, suc, ◌<◌, ◌≤◌, ◌≡◌, refl, sym, ap, ◌∙◌, List, [], ◌∷◌, ◌++◌, append-nil,
  append_assoc, length, length-append, take, drop, drop_all, subst, take-append-drop, arith,
}
use async_udx.Stream.Delivery.Spec.{prefix}

abbrev pub Log : Type 0
Log = List (List ℕ)

-- The body with a number, and all of them one behind the other.
abbrev pub nth : Log → ℕ → List ℕ
nth [] k = []
nth (body ∷ log) zero = body
nth (body ∷ log) (suc k) = nth log k

abbrev pub joined : Log → List ℕ
joined [] = []
joined (body ∷ log) = body ++ joined log

-- `f` has the bodies of the log at their numbers.
abbrev pub Agrees : Log → (ℕ → List ℕ) → Type 0
Agrees log f = (k : ℕ) → k < length log → f k ≡ nth log k

pub joined-append : (xs ys : Log) → joined (xs ++ ys) ≡ joined xs ++ joined ys
joined-append [] ys = refl
joined-append (x ∷ xs) ys = rw (joined-append xs ys, append_assoc)

pub nth-append_old : (xs ys : Log) (k : ℕ) → k < length xs → nth (xs ++ ys) k ≡ nth xs k
nth-append_old [] ys k h = absurd (omega arith)
nth-append_old (x ∷ xs) ys zero h = refl
nth-append_old (x ∷ xs) ys (suc k) h = nth-append_old xs ys k (omega arith)

pub nth-append_new : (xs : Log) (y : List ℕ) (ys : Log) → nth (xs ++ y ∷ ys) (length xs) ≡ y
nth-append_new [] y ys = refl
nth-append_new (x ∷ xs) y ys = nth-append_new xs y ys

pub Agrees-append : (xs ys : Log) (f : ℕ → List ℕ) → Agrees (xs ++ ys) f → Agrees xs f
Agrees-append xs ys f a k h = a k (omega (arith, length-append xs ys)) ∙ nth-append_old xs ys k h

-- What the bodies from a number on are, taken apart at the first of them.
joined-drop : (log : Log) (k : ℕ) → joined (drop k log) ≡ nth log k ++ joined (drop (suc k) log)
joined-drop [] zero = refl
joined-drop [] (suc k) = refl
joined-drop (x ∷ log) zero = refl
joined-drop (x ∷ log) (suc k) = joined-drop log k

prefix-joined : (log : Log) (k : ℕ) → prefix (nth log) k ++ joined (drop k log) ≡ joined log
unfolding prefix
prefix-joined log zero = refl
prefix-joined log (suc k) = rw append_assoc (rw (← joined-drop log k) (prefix-joined log k))

-- The bodies before a number, with a front of the body that has it, are a front of all of them.
pub prefix-front :
    (log : Log) (k n : ℕ)
    → (rest : List ℕ) × (joined log ≡ prefix (nth log) k ++ take n (nth log k) ++ rest)
prefix-front log k n = (
  drop n (nth log k) ++ joined (drop (suc k) log),
  sym (prefix-joined log k)
      ∙ ap (λ xs. prefix (nth log) k ++ xs)
          (joined-drop log k
            ∙ ap (λ xs. xs ++ joined (drop (suc k) log)) (sym (take-append-drop n (nth log k)))
            ∙ append_assoc (take n (nth log k)) (drop n (nth log k)) (joined (drop (suc k) log)))
      ∙ sym (
          append_assoc (prefix (nth log) k) (take n (nth log k))
            (drop n (nth log k) ++ joined (drop (suc k) log))),
)

nth_past : (log : Log) (k : ℕ) → length log ≤ k → nth log k ≡ []
nth_past [] k h = refl
nth_past (x ∷ log) zero h = absurd (omega arith)
nth_past (x ∷ log) (suc k) h = nth_past log k (omega arith)

-- The bodies before the end are all of them.
pub prefix-all :
    (log : Log) (k n : ℕ) → length log ≤ k → prefix (nth log) k ++ take n (nth log k) ≡ joined log
prefix-all log k n past =
    rw (nth_past log k past, take-nil n, append-nil)
      (sym (append-nil (prefix (nth log) k))
        ∙ subst (λ l. prefix (nth log) k ++ joined l ≡ joined log) (drop_all k log past)
            (prefix-joined log k))
