-- ===== src/Map.antt =====
-- Maps with numbers for keys, as association lists: what the code uses of `HashMap` and `BTreeMap`.
use async_udx.Prelude.{
  ℕ, ◌≡◌, List, [], ◌∷◌, Option, none, some, Bool, true, false, arith, if◌then◌else◌, ◌==◌, length,
  ◌≤◌, ◌<◌, ◌≢◌,
}

module _ {ℓ} {V : Type ℓ} where
  unfoldable pub lookup : ℕ → List (ℕ × V) → Option V
  lookup k [] = none
  lookup k ((j, v) ∷ m) = if j == k then some v else lookup k m

  unfoldable pub remove : ℕ → List (ℕ × V) → List (ℕ × V)
  remove k [] = []
  remove k ((j, v) ∷ m) = let rest = remove k m in if j == k then rest else (j, v) ∷ rest

  unfoldable pub insert : ℕ → V → List (ℕ × V) → List (ℕ × V)
  insert k v m = (k, v) ∷ remove k m

  abbrev pub is_some : Option V → Bool
  is_some none = false
  is_some (some v) = true

  abbrev pub contains_key : ℕ → List (ℕ × V) → Bool
  contains_key k m = is_some (lookup k m)

  pub lookup-remove :
      (k j : ℕ) (m : List (ℕ × V)) → lookup j (remove k m) ≡ (if k == j then none else lookup j m)
  unfolding lookup remove
  lookup-remove k j [] = ground arith
  lookup-remove k j ((i, v) ∷ m) = ground (arith, lookup-remove k j m)

  pub lookup-insert :
      (k j : ℕ) (v : V) (m : List (ℕ × V))
      → lookup j (insert k v m) ≡ (if k == j then some v else lookup j m)
  unfolding lookup insert
  lookup-insert k j v m = ground (arith, lookup-remove k j m)

module _ {ℓ} {V : Type ℓ} where
  pub length-remove-le : (k : ℕ) (m : List (ℕ × V)) → length (remove k m) ≤ length m
  unfolding remove
  length-remove-le k [] = omega arith
  length-remove-le k ((j, v) ∷ m) = ground (arith, length-remove-le k m)

  pub length-remove-lt :
      (k : ℕ) (m : List (ℕ × V)) (v : V) → lookup k m ≡ some v → length (remove k m) < length m
  unfolding lookup remove
  length-remove-lt k [] v e = cc
  length-remove-lt k ((j, w) ∷ m) v e = ground (arith, length-remove-le k m, length-remove-lt k m v)

  pub lookup-insert_same : (k : ℕ) (v : V) (m : List (ℕ × V)) → lookup k (insert k v m) ≡ some v
  lookup-insert_same k v m = ground (arith, lookup-insert k k v m)

  pub lookup-insert_other :
      (k j : ℕ) (v : V) (m : List (ℕ × V)) → j ≢ k → lookup j (insert k v m) ≡ lookup j m
  lookup-insert_other k j v m other = ground (arith, lookup-insert k j v m)
