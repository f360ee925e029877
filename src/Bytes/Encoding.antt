-- ===== src/Bytes/Encoding.antt =====
-- The little-endian encoding of numbers, and how it is read back.
use mini_block_chain.Prelude.{
  ℕ, zero, suc, ◌+◌, ◌*◌, ◌/◌, ◌^◌, ◌<◌, ◌≡◌, refl, ap, sym, ◌∙◌, [], ◌∷◌, arith, length,
}
use native.Mathlib.Nat.{pow-suc}
use mini_block_chain.Bytes.{Bytes, le_bytes}

unfoldable pub from_le_bytes : Bytes → ℕ
from_le_bytes [] = 0
from_le_bytes (b ∷ bs) = b + 256 * from_le_bytes bs

pub length-le_bytes : (k x : ℕ) → length (le_bytes k x) ≡ k
unfolding le_bytes
length-le_bytes zero x = refl
length-le_bytes (suc k) x = ap suc (length-le_bytes k (x / 256))

-- A number of at most `k` bytes is read back from its encoding.
pub from_le_bytes-le_bytes : (k x : ℕ) → x < 256 ^ k → from_le_bytes (le_bytes k x) ≡ x
unfolding le_bytes from_le_bytes
from_le_bytes-le_bytes zero x h = omega arith
from_le_bytes-le_bytes (suc k) x h =
    omega (arith, from_le_bytes-le_bytes k (x / 256) (omega (arith, pow-suc 256 k)))

-- Two numbers of at most `k` bytes with the same encoding are equal.
pub le_bytes_injective :
    (k x y : ℕ) → x < 256 ^ k → y < 256 ^ k → le_bytes k x ≡ le_bytes k y → x ≡ y
le_bytes_injective k x y hx hy e =
    sym (from_le_bytes-le_bytes k x hx) ∙ ap from_le_bytes e ∙ from_le_bytes-le_bytes k y hy
