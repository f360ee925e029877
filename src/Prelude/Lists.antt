-- ===== src/Prelude/Lists.antt =====
-- Lists measured by native numbers, under the library's names, and counting by a decision.
use Prim.Native.Nat.{ℕ, suc, ◌+◌, ◌<◌}
use mathlib.Core.Path.{◌≡◌, refl, sym, ap}
use mathlib.Core.Logic.{ite}
use mathlib.Core.List.{List, [], ◌∷◌, ◌++◌, map}
use native.Mathlib.Omega.{arith}

module _ {ℓ} {A : Type ℓ} where
  abbrev pub length : List A → ℕ
  length [] = 0
  length (x ∷ xs) = suc (length xs)

  pub length-append : (xs ys : List A) → length (xs ++ ys) ≡ length xs + length ys
  length-append [] ys = omega arith
  length-append (x ∷ xs) ys = omega (arith, length-append xs ys)

  -- The sum of a weight over a list.
  unfoldable pub sum : (A → ℕ) → List A → ℕ
  sum w [] = 0
  sum w (x ∷ xs) = w x + sum w xs

  pub sum-append : (w : A → ℕ) (xs ys : List A) → sum w (xs ++ ys) ≡ sum w xs + sum w ys
  unfolding sum
  sum-append w [] ys = omega arith
  sum-append w (x ∷ xs) ys = omega (arith, sum-append w xs ys)

pub length-map {ℓ κ} :
    {A : Type ℓ} {B : Type κ} (f : A → B) (xs : List A) → length (map f xs) ≡ length xs
length-map f [] = refl
length-map f (x ∷ xs) = ap suc (length-map f xs)

-- A predicate on every item.
abbrev pub All {ℓ κ} : {A : Type ℓ} → (A → Type κ) → List A → Type κ
All P [] = Unit
All P (x ∷ xs) = P x × All P xs

pub All-map {ℓ κ μ} :
    {A : Type ℓ} {P : A → Type κ} {Q : A → Type μ} (xs : List A)
    → ((a : A) → P a → Q a)
    → All P xs
    → All Q xs
All-map [] f h = tt
All-map (x ∷ xs) f h = (f x h.0, All-map xs f h.1)

module _ {A : Type 0} (dec : Discrete A) where
  -- How often an item occurs.
  unfoldable pub count : A → List A → ℕ
  count a [] = 0
  count a (x ∷ xs) = ite (dec x a) 1 0 + count a xs

  -- `Vec::retain` with the test `|x| x != a`.
  unfoldable pub retain_ne : A → List A → List A
  retain_ne a [] = []
  retain_ne a (x ∷ xs) = ite (dec x a) (retain_ne a xs) (x ∷ retain_ne a xs)

  pub count-append : (a : A) (xs ys : List A) → count a (xs ++ ys) ≡ count a xs + count a ys
  unfolding count
  count-append a [] ys = omega arith
  count-append a (x ∷ xs) ys = omega (arith, count-append a xs ys)

  pub count-retain_ne :
      (a b : A) (xs : List A) → count b (retain_ne a xs) ≡ ite (dec a b) 0 (count b xs)
  unfolding count retain_ne
  count-retain_ne a b [] = ground arith
  count-retain_ne a b (x ∷ xs) = ground (arith, count-retain_ne a b xs)

  -- Removes the first occurrence.
  unfoldable pub erase_one : A → List A → List A
  erase_one a [] = []
  erase_one a (x ∷ xs) = ite (dec x a) xs (x ∷ erase_one a xs)

  count-erase_one :
      (a b : A) (xs : List A)
      → 0 < count a xs
      → count b xs ≡ count b (erase_one a xs) + ite (dec a b) 1 0
  unfolding count erase_one
  count-erase_one a b [] h = absurd (omega arith)
  count-erase_one a b (x ∷ xs) h = ground (arith, count-erase_one a b xs)

  sum-erase_one :
      (w : A → ℕ) (a : A) (xs : List A) → 0 < count a xs → sum w xs ≡ w a + sum w (erase_one a xs)
  unfolding count erase_one sum
  sum-erase_one w a [] h = absurd (omega arith)
  sum-erase_one w a (x ∷ xs) h = ground (arith, sum-erase_one w a xs)

  count_head : (a : A) (xs : List A) → 0 < count a (a ∷ xs)
  unfolding count
  count_head a xs = ground arith

  none_counted : (x : A) (xs : List A) → ((a : A) → count a (x ∷ xs) ≡ count a []) → ⊥
  unfolding count
  none_counted x xs h = omega (arith, h x, count_head x xs)

  count_cons : (x a : A) (xs : List A) → count a (x ∷ xs) ≡ ite (dec x a) 1 0 + count a xs
  unfolding count
  count_cons x a xs = refl

  count_rest :
      (x a : A) (xs ys : List A)
      → ((b : A) → count b (x ∷ xs) ≡ count b ys)
      → count a xs ≡ count a (erase_one x ys)
  count_rest x a xs ys h =
      omega (
        arith,
        h a,
        count_cons x a xs,
        count-erase_one x a ys (omega (arith, h x, count_head x xs)),
      )

  -- Lists that hold the same items equally often have the same sum.
  pub sum_of_count-eq :
      (w : A → ℕ) (xs ys : List A) → ((a : A) → count a xs ≡ count a ys) → sum w xs ≡ sum w ys
  unfolding sum
  sum_of_count-eq w [] [] h = refl
  sum_of_count-eq w [] (y ∷ ys) h = absurd (none_counted y ys (λ a. sym (h a)))
  sum_of_count-eq w (x ∷ xs) ys h = omega (
    arith,
    sum-erase_one w x ys (omega (arith, h x, count_head x xs)),
    sum_of_count-eq w xs (erase_one x ys) (λ a. count_rest x a xs ys h),
  )
