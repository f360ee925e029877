-- ===== src/HashMap/Sizes.antt =====
-- The number of entries and the sums over them, after each operation of a map.
use mini_block_chain.Prelude.{ℕ, ◌+◌, ◌≡◌, refl, Bool, Option, none, some, [], ◌∷◌, arith, length}
use mini_block_chain.HashMap.{HashMap, get, insert, remove, place, insert_sorted}

abbrev pub at : {V : Type 0} → (V → ℕ) → Option V → ℕ
at w none = 0
at w (some v) = w v

module _ {K V : Type 0} where
  -- The sum of a weight over the values.
  unfoldable pub total : (V → ℕ) → HashMap K V → ℕ
  total w [] = 0
  total w ((k, v) ∷ m) = w v + total w m

  -- The number of entries is the sum of the weight 1.
  pub length-total : (m : HashMap K V) → length m ≡ total (λ _. 1) m
  unfolding total
  length-total [] = refl
  length-total ((k, v) ∷ m) = omega (arith, length-total m)

module _ {K V : Type 0} (dec : Discrete K) where
  pub total-insert :
      (w : V → ℕ) (k : K) (v : V) (m : HashMap K V)
      → total w (insert dec k v m) + at w (get dec k m) ≡ total w m + w v
  unfolding total insert get
  total-insert w k v [] = ground arith
  total-insert w k v ((i, x) ∷ m) = ground (arith, total-insert w k v m)

  pub total-remove :
      (w : V → ℕ) (k : K) (m : HashMap K V)
      → total w (remove dec k m) + at w (get dec k m) ≡ total w m
  unfolding total remove get
  total-remove w k [] = ground arith
  total-remove w k ((i, x) ∷ m) = ground (arith, total-remove w k m)

  module _ (lt : K → K → Bool) where
    total-place :
        (w : V → ℕ) (k : K) (v : V) (m : HashMap K V)
        → total w (place dec lt k v m) ≡ total w m + w v
    unfolding total place
    total-place w k v [] = ground arith
    total-place w k v ((i, x) ∷ m) = ground (arith, total-place w k v m)

    pub total-insert_sorted :
        (w : V → ℕ) (k : K) (v : V) (m : HashMap K V)
        → total w (insert_sorted dec lt k v m) + at w (get dec k m) ≡ total w m + w v
    unfolding insert_sorted
    total-insert_sorted w k v m = ground (arith, total-insert w k v m, total-place w k v m)

module _ {K V : Type 0} (dec : Discrete K) where
  pub length-remove :
      (k : K) (m : HashMap K V) → length (remove dec k m) + at (λ _. 1) (get dec k m) ≡ length m
  length-remove k m =
      omega
        (arith, length-total m, length-total (remove dec k m), total-remove dec (λ (_ : V). 1) k m)

  pub length-insert_sorted :
      (lt : K → K → Bool) (k : K) (v : V) (m : HashMap K V)
      → length (insert_sorted dec lt k v m) + at (λ _. 1) (get dec k m) ≡ length m + 1
  length-insert_sorted lt k v m = omega (
    arith,
    length-total m,
    length-total (insert_sorted dec lt k v m),
    total-insert_sorted dec lt (λ (_ : V). 1) k v m,
  )
