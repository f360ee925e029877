-- ===== src/Node/Request.antt =====
-- How the handlers read a request: JSON fields with defaults, `str::parse::<u64>`, and the hash
-- under which a request is known (src/modules/network.rs, `hash_network_request`).
use mini_block_chain.Prelude.{
  ℕ, ◌+◌, ◌-◌, ◌*◌, ◌<◌, ◌≡◌, Bool, true, false, ◌&&◌, Option, none, some, [], ◌∷◌, arith, ltb, leb,
  ◌==◌, if◌then◌else◌, u64_mod,
}
use mini_block_chain.Bytes.{Bytes, Text}
use mini_block_chain.External.{Json, Key}

abbrev is_digit : ℕ → Bool
is_digit c = leb b'0' c && leb c b'9'

-- The digits of a u64, with the panic-free overflow test of `parse`.
unfoldable pub parse_digits : ℕ → Text → Option ℕ
parse_digits acc [] = some acc
parse_digits acc (c ∷ cs) =
    let n = 10 * acc + (c - b'0') in
    elim (is_digit c && ltb n u64_mod) [ true ↦ parse_digits n cs | false ↦ none ]

-- One `+` may stand before the digits; there must be a digit.
unfoldable pub parse_u64 : Text → Option ℕ
parse_u64 [] = none
parse_u64 (c ∷ []) = parse_digits 0 (c ∷ [])
parse_u64 (c ∷ d ∷ cs) = if c == b'+' then parse_digits 0 (d ∷ cs) else parse_digits 0 (c ∷ d ∷ cs)

parse_digits-lt :
    (acc : ℕ) (cs : Text) (n : ℕ) → acc < u64_mod → parse_digits acc cs ≡ some n → n < u64_mod
unfolding parse_digits
parse_digits-lt acc [] n h e = ground (arith, e)
parse_digits-lt acc (c ∷ cs) n h e = ground (arith, e, parse_digits-lt (10 * acc + (c - b'0')) cs n)

-- Every number that is read from a text fits a u64.
pub parse_u64-lt : (t : Text) (n : ℕ) → parse_u64 t ≡ some n → n < u64_mod
unfolding parse_u64
parse_u64-lt [] n e = cc
parse_u64-lt (c ∷ []) n e = parse_digits-lt 0 (c ∷ []) n (omega arith) e
parse_u64-lt (c ∷ d ∷ cs) n e =
    ground (arith, e, parse_digits-lt 0 (d ∷ cs) n, parse_digits-lt 0 (c ∷ d ∷ cs) n)

module _ {Value : Type 0} (x : Json Value) where
  -- `request["key"].as_str().unwrap_or_default()`
  abbrev pub str_field : Key → Value → Text
  str_field k r = elim (x.as_str (x.index r k)) [ none ↦ [] | some t ↦ t ]

  -- `request["key"].as_u64().unwrap_or(0)`
  abbrev pub u64_field : Key → Value → ℕ
  u64_field k r = elim (x.as_u64 (x.index r k)) [ none ↦ 0 | some n ↦ n ]

  -- `request["amount"].as_str().unwrap_or_default().parse().unwrap_or_default()`
  unfoldable pub amount_field : Value → ℕ
  amount_field r = elim (parse_u64 (str_field Key.amount r)) [ none ↦ 0 | some n ↦ n ]

  unfoldable pub hash_network_request : (Bytes → Bytes) → Value → Bytes
  hash_network_request sha256 r = sha256 (x.to_string r)
