-- ===== src/Ledger/Audit.antt =====
-- src/modules/validation.rs: what a UTXO transaction that the node accepts is.
mod Tests
use mini_block_chain.Prelude.{
  ℕ, zero, suc, ◌+◌, ◌-◌, ◌*◌, ◌/◌, ◌%◌, ◌^◌, ◌≤◌, ◌<◌, ◌≡◌, refl, sym, ap, ◌∙◌, ◌≢◌, ◌↔◌, ◌⊎◌, inl,
  inr, ite, if_pos, if_neg, Bool, true, false, ◌&&◌, ◌||◌, not, Option, none, some, List, [], ◌∷◌,
  ◌++◌, map, arith, dec_lt, dec_le, ℕ_discrete, ltb, leb, ◌==◌, if◌then◌else◌, Bool-cases,
  Option-cases, length, length-append, length-map, sum, sum-append, All, All-map, count, retain_ne,
  count-append, count-retain_ne, sum_of_count-eq, u64_mod, u32_mod, checked_add, checked_sub,
  sum_u64, in_u64, sum_u64_lem,
}
use mini_block_chain.Bytes.{Bytes, Text, bytes_discrete}
use mini_block_chain.HashMap.{HashMap, get, insert}
use mini_block_chain.HashMap.Laws.{get-insert}
use mini_block_chain.External.{Json, Key, Crypto}
use mini_block_chain.Utxo.{OutPoint, Utxo, TxInput, TxOutput, UtxoTransaction}
use mini_block_chain.Utxo.Set.{UtxoSet, get_utxo, contains}
use mini_block_chain.Utxo.Amounts.{total_input_amount, total_output_amount}
use mini_block_chain.Utxo.Apply.{Applied, check_inputs, apply_transaction}
use mini_block_chain.Utxo.Spending.{IsStored, applied_ok}
use mini_block_chain.Chain.{
  Block, BlockChain, request_address, pushed, push_block_to_chain, set_block_hash,
}
use mini_block_chain.Signature.{verify_transaction_signature}
use mini_block_chain.Node.{
  ValidatorNode, Outcome, done, panicked, waiting, Action, pure, gets, unwrap, ◌>>=◌, ◌>>◌, update,
}
use mini_block_chain.Node.Request.{hash_network_request}
use mini_block_chain.Ledger.{store_decision}
use mini_block_chain.Ledger.Spend.{
  parse_transaction, check_input_signatures, judge_utxo_transaction,
  verify_utxo_transaction_independently, add_utxo_transaction_to_ledger,
}

-- An input names a stored output that pays the input's key.
abbrev pub IsOwned : UtxoSet → TxInput → Type 0
IsOwned s i = (u : Utxo) × (get_utxo i.outpoint s ≡ some u) × (i.public_key ≡ u.recipient)

module _ {Value : Type 0} (x : Json Value) (c : Crypto) where
  signed_by_owners :
      (is : List TxInput) (s : UtxoSet) (used : HashMap Bytes (List Text))
      → (check_input_signatures x c is s used).0 ≡ true
      → All (IsOwned s) is
  unfolding check_input_signatures
  signed_by_owners [] s used e = tt
  signed_by_owners (i ∷ is) s used e = elim (Option-cases (get_utxo i.outpoint s)) [
    | inl q ↦ absurd (ground (arith, e, q))
    | inr (u, q) ↦ elim (bytes_discrete i.public_key u.recipient) [
      | no n ↦ absurd (ground (arith, e, q, n))
      | yes p ↦ (
        (u, q, p),
        signed_by_owners is s
            (verify_transaction_signature c i.signature (c.hex_encode i.public_key) [] [] 0 used).1
            (ground (arith, e, q, p)),
      )
    ]
  ]

  -- The balance test: what is paid out is covered by what is put in.
  abbrev pub IsCovered : UtxoTransaction → UtxoSet → Type 0
  IsCovered tx s =
      (i : ℕ) × (o : ℕ) × (total_input_amount tx s ≡ some i)
      × (total_output_amount tx ≡ some o)
      × (o ≤ i)

  judged :
      (tx : UtxoTransaction) (n : ValidatorNode)
      → (judge_utxo_transaction x c tx n).0 ≡ done true
      → IsCovered tx n.utxo_set
        × All (IsOwned n.utxo_set) tx.inputs
        × ((judge_utxo_transaction x c tx n).1.utxo_set ≡ n.utxo_set)
  unfolding judge_utxo_transaction
  judged tx n e = elim (Option-cases (total_input_amount tx n.utxo_set)) [
    | inl p ↦ absurd (ground (arith, e, p))
    | inr (i, p) ↦ elim (Option-cases (total_output_amount tx)) [
      | inl q ↦ absurd (ground (arith, e, p, q))
      | inr (o, q) ↦ (
        (i, o, p, q, ground (arith, e, p, q)),
        signed_by_owners tx.inputs n.utxo_set n.used_zk_proofs (ground (arith, e, p, q)),
        ground (arith, e, p, q),
      )
    ]
  ]

  -- A request that parses as a UTXO transaction and that the node accepts: the outputs that its
  -- inputs name are stored and pay the inputs' keys, what it pays out is covered by what it puts
  -- in, and neither sum leaves u64. The decision is on record afterwards, and the set of unspent
  -- outputs is as it was.
  pub verify_utxo_transaction_independently_lem :
      (r : Value) (tx : UtxoTransaction) (n : ValidatorNode)
      → parse_transaction x c r ≡ some tx
      → (verify_utxo_transaction_independently x c r n).0 ≡ done true
      → let n' = (verify_utxo_transaction_independently x c r n).1 in
        IsCovered tx n.utxo_set
        × All (IsOwned n.utxo_set) tx.inputs
        × (get bytes_discrete (hash_network_request x c.sha256 r) n'.client_decisions ≡ some true)
        × (n'.utxo_set ≡ n.utxo_set)
  unfolding verify_utxo_transaction_independently
  verify_utxo_transaction_independently_lem r tx n parsed e =
      let ok : (judge_utxo_transaction x c tx n).0 ≡ done true = ground (arith, e, parsed) in
      let (covered, owned, kept) = judged tx n ok in
      (
        covered,
        owned,
        ground (
          arith,
          parsed,
          ok,
          get-insert bytes_discrete (hash_network_request x c.sha256 r)
              (hash_network_request x c.sha256 r) true
              (judge_utxo_transaction x c tx n).1.client_decisions,
        ),
        ground (arith, parsed, ok, kept),
      )
