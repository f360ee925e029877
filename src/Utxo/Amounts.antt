-- ===== src/Utxo/Amounts.antt =====
-- src/modules/utxo.rs: what a transaction spends, what it pays out, and its fee.
use mini_block_chain.Prelude.{
  ℕ, Option, none, some, List, [], ◌∷◌, map, checked_add, checked_sub, sum_u64,
}
use mini_block_chain.Utxo.{TxInput, UtxoTransaction}
use mini_block_chain.Utxo.Set.{UtxoSet, get_utxo}

-- The loop of `total_input_amount`, from an accumulator.
unfoldable pub total_input_from : UtxoSet → ℕ → List TxInput → Option ℕ
total_input_from s total [] = some total
total_input_from s total (i ∷ is) = elim (get_utxo i.outpoint s) [
  | none ↦ none
  | some utxo ↦ elim (checked_add total utxo.amount) [
    | none ↦ none
    | some total' ↦ total_input_from s total' is
  ]
]

unfoldable pub total_input_amount : UtxoTransaction → UtxoSet → Option ℕ
total_input_amount tx s = total_input_from s 0 tx.inputs

-- `none` is the panic of a sum beyond u64.
unfoldable pub total_output_amount : UtxoTransaction → Option ℕ
total_output_amount tx = sum_u64 (map (λ o. o.amount) tx.outputs)

-- How `fee` ends: with its `Option`, or in the panic of `total_output_amount`.
pub data Fee : Type 0 where
  returned : Option ℕ → Fee
  panicked : Fee

unfoldable pub fee : UtxoTransaction → UtxoSet → Fee
fee tx s = elim (total_input_amount tx s) [
  | none ↦ Fee.returned none
  | some input_amount ↦ elim (total_output_amount tx) [
    | none ↦ Fee.panicked
    | some output_amount ↦ Fee.returned (checked_sub input_amount output_amount)
  ]
]
