-- ===== src/External.antt =====
-- What the program calls and does not implement: SHA-256, hex, secp256k1 and serde_json. Each is a
-- record of functions that the model takes as a parameter; what a theorem relies on is a
-- hypothesis of that theorem.
use mini_block_chain.Prelude.{ℕ, Bool, Option, List}
use mini_block_chain.Bytes.{Bytes, Text}
use mini_block_chain.Utxo.{TxInput, TxOutput}

pub record Crypto : Type 0 where
  pub sha256 : Bytes → Bytes
  pub hex_encode : Bytes → Text
  pub hex_decode : Text → Option Bytes
  pub signature_from_compact : Bytes → Option Bytes
  pub public_key_from_slice : Bytes → Option Bytes
  pub message_from_slice : Bytes → Option Bytes
  -- Message, signature, public key.
  pub verify : Bytes → Bytes → Bytes → Bool

-- The keys by which the handlers index a request.
pub data Key : Type 0 where
  action public_key public_key_hash : Key
  sender_public_key recipient_public_key signature amount nonce : Key
  inputs outputs timestamp : Key
  request_hash response_port decision port_address : Key

-- `serde_json::Value`, over a type of values.
pub record Json (Value : Type 0) : Type 0 where
  -- `value["key"]`
  pub index : Value → Key → Value
  pub as_str : Value → Option Text
  pub as_u64 : Value → Option ℕ
  pub as_bool : Value → Option Bool
  pub as_array : Value → Option (List Value)
  pub to_string : Value → Text
  -- `serde_json::from_value`, at the two types that the handlers read.
  pub to_tx_input : Value → Option TxInput
  pub to_tx_output : Value → Option TxOutput
