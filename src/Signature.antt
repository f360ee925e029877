-- ===== src/Signature.antt =====
-- src/modules/zk_proof.rs: the signatures of transactions, and the record of those used. The
-- curve, hex and SHA-256 are parameters.
pub mod Replay
mod Tests
use mini_block_chain.Prelude.{
  ℕ, zero, suc, ◌+◌, ◌-◌, ◌*◌, ◌/◌, ◌%◌, ◌^◌, ◌≤◌, ◌<◌, ◌≡◌, refl, sym, ap, ◌∙◌, ◌≢◌, ◌↔◌, ◌⊎◌, inl,
  inr, ite, if_pos, if_neg, Bool, true, false, ◌&&◌, ◌||◌, not, Option, none, some, List, [], ◌∷◌,
  ◌++◌, map, arith, dec_lt, dec_le, ℕ_discrete, ltb, leb, ◌==◌, if◌then◌else◌, Bool-cases,
  Option-cases, length, length-append, length-map, sum, sum-append, All, All-map, count, retain_ne,
  count-append, count-retain_ne, sum_of_count-eq, u64_mod, u32_mod, checked_add, checked_sub,
  sum_u64, in_u64, sum_u64_lem,
}
use mini_block_chain.Bytes.{Bytes, Text, bytes_discrete, le_bytes}
use mini_block_chain.HashMap.{HashMap, get, insert, upsert}
use mini_block_chain.External.{Crypto}

-- `used_sigs.contains(&signature)`
unfoldable pub is_used : Text → List Text → Bool
is_used t [] = false
is_used t (u ∷ us) = ite (bytes_discrete u t) true (is_used t us)

module _ (c : Crypto) where
  unfoldable pub create_transaction_message : Text → Text → Text → ℕ → Bytes
  create_transaction_message sender recipient amount nonce =
      c.sha256 (sender ++ (recipient ++ (amount ++ le_bytes 8 nonce)))

  -- The part of `verify_transaction_signature` that reads no state: parsing, and the curve.
  unfoldable pub signature_holds : Text → Text → Text → Text → ℕ → Bool
  signature_holds signature sender recipient amount nonce = elim (c.hex_decode signature) [
    | none ↦ false
    | some signature_bytes ↦ elim (c.signature_from_compact signature_bytes) [
      | none ↦ false
      | some sig ↦ elim (c.hex_decode sender) [
        | none ↦ false
        | some key_bytes ↦ elim (c.public_key_from_slice key_bytes) [
          | none ↦ false
          | some key ↦
              elim (c.message_from_slice
                (create_transaction_message sender recipient amount nonce)) [
                  | none ↦ false
                  | some message ↦ c.verify message sig key
                ]
        ]
      ]
    ]
  ]

  abbrev pub used_by : Text → HashMap Bytes (List Text) → List Text
  used_by sender used = elim (get bytes_discrete sender used) [ none ↦ [] | some sigs ↦ sigs ]

  -- The decision, and the used signatures after it.
  unfoldable pub verify_transaction_signature :
      Text → Text → Text → Text → ℕ → HashMap Bytes (List Text) → Bool × HashMap Bytes (List Text)
  verify_transaction_signature signature sender recipient amount nonce used =
      elim (signature_holds signature sender recipient amount nonce) [
        | false ↦ (false, used)
        | true ↦ elim (is_used signature (used_by sender used)) [
          | true ↦ (false, used)
          | false ↦ (true, upsert bytes_discrete sender [] (λ sigs. sigs ++ signature ∷ []) used)
        ]
      ]
