-- ===== src/Prelude/Words.antt =====
-- The u64 arithmetic of a build with overflow checks, as `cargo run` makes it: an addition or a
-- subtraction out of range is a panic, here `none`.
use Prim.Native.Nat.{ℕ, ◌+◌, ◌-◌, ◌^◌, ◌<◌}
use mathlib.Core.Path.{◌≡◌}
use mathlib.Core.List.{List, [], ◌∷◌}
use mathlib.Core.Option.{Option, none, some}
use native.Mathlib.Omega.{arith}
use mini_block_chain.Prelude.Tests.{ltb, leb, if◌then◌else◌}
use mini_block_chain.Prelude.Lists.{sum}

abbrev pub u64_mod : ℕ
u64_mod = 2 ^ 64

abbrev pub u32_mod : ℕ
u32_mod = 2 ^ 32

-- `a.checked_add(b)`, and `a + b` where `none` is the panic.
unfoldable pub checked_add : ℕ → ℕ → Option ℕ
checked_add a b = if ltb (a + b) u64_mod then some (a + b) else none

-- `a.checked_sub(b)`, and `a - b` where `none` is the panic.
unfoldable pub checked_sub : ℕ → ℕ → Option ℕ
checked_sub a b = if leb b a then some (a - b) else none

-- `Iterator::sum` on u64: additions from the left, starting at an accumulator.
unfoldable pub sum_from : ℕ → List ℕ → Option ℕ
unfolding checked_add
sum_from acc [] = some acc
sum_from acc (x ∷ xs) = elim (checked_add acc x) [ none ↦ none | some total ↦ sum_from total xs ]

unfoldable pub sum_u64 : List ℕ → Option ℕ
unfolding sum_from
sum_u64 xs = sum_from 0 xs

abbrev pub in_u64 : ℕ → Option ℕ
in_u64 n = if ltb n u64_mod then some n else none

sum_from_lem :
    (acc : ℕ) (xs : List ℕ) → acc < u64_mod → sum_from acc xs ≡ in_u64 (acc + sum (λ x. x) xs)
unfolding sum_from sum
sum_from_lem acc [] h = ground arith
sum_from_lem acc (x ∷ xs) h = ground (arith, sum_from_lem (acc + x) xs)

-- The checked sum is the sum, exactly if that fits a u64.
pub sum_u64_lem : (xs : List ℕ) → sum_u64 xs ≡ in_u64 (sum (λ x. x) xs)
unfolding sum_u64
sum_u64_lem xs = ground (arith, sum_from_lem 0 xs)
