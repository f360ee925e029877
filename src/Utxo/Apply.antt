-- ===== src/Utxo/Apply.antt =====
-- src/modules/utxo.rs: `apply_transaction` and `apply_coinbase`.
use mini_block_chain.Prelude.{ℕ, suc, ◌%◌, true, false, List, [], ◌∷◌, u32_mod}
use mini_block_chain.Bytes.{Bytes}
use mini_block_chain.Utxo.{Utxo, OutPoint, TxInput, TxOutput, UtxoTransaction, CoinbaseTransaction}
use mini_block_chain.Utxo.Set.{UtxoSet, add_utxo, remove_utxo, contains}

-- `Err(format!("UTXO not found: {:?}", outpoint))`, by the outpoint that it shows.
pub data Applied : Type 0 where
  ok : Applied
  not_found : OutPoint → Applied

-- The first loop: every input must exist.
unfoldable pub check_inputs : List TxInput → UtxoSet → Applied
check_inputs [] s = Applied.ok
check_inputs (i ∷ is) s = elim (contains i.outpoint s) [
  | true ↦ check_inputs is s
  | false ↦ Applied.not_found i.outpoint
]

-- The second loop removes what is spent.
unfoldable pub remove_inputs : List TxInput → UtxoSet → UtxoSet
remove_inputs [] s = s
remove_inputs (i ∷ is) s = remove_inputs is (remove_utxo i.outpoint s).0

-- Where the output with this index goes; `index as u32` wraps.
abbrev pub out_point_at : Bytes → ℕ → OutPoint
out_point_at txid index = record { txid = txid; vout = index % u32_mod }

abbrev pub utxo_of : ℕ → ℕ → TxOutput → Utxo
utxo_of block_height timestamp o = record {
  amount = o.amount;
  recipient = o.recipient;
  block_height = block_height;
  timestamp = timestamp;
}

-- The third loop adds the outputs, numbered from `index`.
unfoldable pub add_outputs : Bytes → ℕ → ℕ → ℕ → List TxOutput → UtxoSet → UtxoSet
add_outputs txid block_height timestamp index [] s = s
add_outputs txid block_height timestamp index (o ∷ os) s =
    add_outputs txid block_height timestamp (suc index) os
      (add_utxo (out_point_at txid index) (utxo_of block_height timestamp o) s)

unfoldable pub apply_transaction : UtxoTransaction → ℕ → UtxoSet → UtxoSet × Applied
apply_transaction tx block_height s = elim (check_inputs tx.inputs s) [
  | Applied.not_found outpoint ↦ (s, Applied.not_found outpoint)
  | Applied.ok ↦ (
    add_outputs tx.hash block_height tx.timestamp 0 tx.outputs (remove_inputs tx.inputs s),
    Applied.ok,
  )
]

unfoldable pub apply_coinbase : CoinbaseTransaction → UtxoSet → UtxoSet
apply_coinbase tx s = add_outputs tx.hash tx.block_height tx.timestamp 0 tx.outputs s
