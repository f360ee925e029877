-- ===== src/Bytes.antt =====
-- Byte vectors (`Vec<u8>`), texts (`String`, as its UTF-8 bytes, so that `as_bytes` is the
-- identity), their derived order, and the integer encodings `to_le_bytes` and `to_be_bytes`.
pub mod Encoding
use Prim.Native.Char.{code}
use Prim.Native.String.{String}
use mathlib.Core.List.{reverse}
use mini_block_chain.Prelude.{
  ℕ, zero, suc, ◌/◌, ◌%◌, Bool, true, false, List, [], ◌∷◌, ltb, ◌==◌, if◌then◌else◌, ℕ_discrete,
}

abbrev pub Bytes : Type 0
Bytes = List ℕ

abbrev pub Text : Type 0
Text = List ℕ

-- A literal of ASCII characters, byte by byte.
abbrev pub codes : String → Text
codes String.[] = []
codes (String.◌∷◌ c s) = code c ∷ codes s

unfoldable pub bytes_discrete : Discrete Bytes
unfolding ℕ_discrete
bytes_discrete = hlevel ℕ_discrete

-- The lexicographic order that `Ord` gives vectors.
unfoldable pub bytes_lt : Bytes → Bytes → Bool
bytes_lt [] [] = false
bytes_lt [] (y ∷ ys) = true
bytes_lt (x ∷ xs) [] = false
bytes_lt (x ∷ xs) (y ∷ ys) = if ltb x y then true else if x == y then bytes_lt xs ys else false

-- The low `k` bytes of a number, least significant first.
unfoldable pub le_bytes : ℕ → ℕ → Bytes
le_bytes zero x = []
le_bytes (suc k) x = (x % 256) ∷ le_bytes k (x / 256)

unfoldable pub be_bytes : ℕ → ℕ → Bytes
unfolding le_bytes
be_bytes k x = reverse (le_bytes k x)
