-- ===== src/Utxo.antt =====
-- src/modules/utxo.rs: the data of the UTXO model, and the functions that read a transaction.
-- The set of unspent outputs is in `Set`, what the transactions do to it in `Apply`.
pub mod Set
pub mod Amounts
pub mod Apply
pub mod Index
pub mod Balance
pub mod Supply
pub mod Spending
pub mod Conservation
mod Tests
use mini_block_chain.Prelude.{
  ℕ, Bool, true, false, List, [], ◌∷◌, ◌++◌, ◌==◌, if◌then◌else◌, ltb, ite, ℕ_discrete,
}
use mini_block_chain.Bytes.{Bytes, Text, bytes_discrete, bytes_lt, le_bytes}
use mini_block_chain.HashMap.{HashMap}

pub record OutPoint : Type 0 where
  pub txid : Bytes
  pub vout : ℕ

unfoldable pub out_point_discrete : Discrete OutPoint
unfolding bytes_discrete ℕ_discrete
out_point_discrete = hlevel (ℕ_discrete, bytes_discrete)

-- The derived order: by transaction, then by index.
unfoldable pub out_point_lt : OutPoint → OutPoint → Bool
unfolding bytes_lt bytes_discrete
out_point_lt a b = ite (bytes_discrete a.txid b.txid) (ltb a.vout b.vout) (bytes_lt a.txid b.txid)

pub record Utxo : Type 0 where
  pub amount : ℕ
  pub recipient : Bytes
  pub block_height : ℕ
  pub timestamp : ℕ

pub record TxInput : Type 0 where
  pub outpoint : OutPoint
  pub signature : Text
  pub public_key : Bytes

pub record TxOutput : Type 0 where
  pub amount : ℕ
  pub recipient : Bytes

pub record UtxoTransaction : Type 0 where
  pub inputs : List TxInput
  pub outputs : List TxOutput
  pub timestamp : ℕ
  pub hash : Bytes

pub record CoinbaseTransaction : Type 0 where
  pub outputs : List TxOutput
  pub block_height : ℕ
  pub timestamp : ℕ
  pub hash : Bytes

-- The bytes that the hashers are fed, one `update` after the other.
hash_inputs : List TxInput → Bytes
unfolding le_bytes
hash_inputs [] = []
hash_inputs (i ∷ is) =
    i.outpoint.txid ++ (le_bytes 4 i.outpoint.vout ++ (i.public_key ++ hash_inputs is))

hash_outputs : List TxOutput → Bytes
unfolding le_bytes
hash_outputs [] = []
hash_outputs (o ∷ os) = le_bytes 8 o.amount ++ (o.recipient ++ hash_outputs os)

-- SHA-256 is not under src/: it is a parameter.
module _ (sha256 : Bytes → Bytes) where
  -- `UTXOTransaction::compute_hash`
  unfoldable pub compute_hash : UtxoTransaction → Bytes
  unfolding hash_inputs hash_outputs
  compute_hash tx =
      sha256 (hash_inputs tx.inputs ++ (hash_outputs tx.outputs ++ le_bytes 8 tx.timestamp))

  -- `UTXOTransaction::new`
  unfoldable pub new_transaction : List TxInput → List TxOutput → ℕ → UtxoTransaction
  unfolding compute_hash
  new_transaction inputs outputs timestamp = record tx { hash = compute_hash tx }
    where
      tx : UtxoTransaction
      tx = record { inputs = inputs; outputs = outputs; timestamp = timestamp; hash = [] }

  -- `CoinbaseTransaction::compute_hash`
  unfoldable pub compute_coinbase_hash : CoinbaseTransaction → Bytes
  unfolding hash_outputs
  compute_coinbase_hash tx =
      sha256 (hash_outputs tx.outputs ++ (le_bytes 8 tx.block_height ++ le_bytes 8 tx.timestamp))

  -- `CoinbaseTransaction::new`
  unfoldable pub new_coinbase : List TxOutput → ℕ → ℕ → CoinbaseTransaction
  unfolding compute_coinbase_hash
  new_coinbase outputs block_height timestamp = record tx { hash = compute_coinbase_hash tx }
    where
      tx : CoinbaseTransaction
      tx = record {
        outputs = outputs;
        block_height = block_height;
        timestamp = timestamp;
        hash = [];
      }
