-- ===== src/Client.antt =====
-- src/modules/requests.rs: the requests that a client or a node sends, and src/modules/network.rs, the
-- ports of the network.
pub mod Reading
pub mod Wallet
pub mod Payment
pub mod Delivery
pub mod Handling
pub mod Ports
pub mod Command
mod Tests
use mini_block_chain.Prelude.{
  ℕ, zero, suc, ◌+◌, ◌-◌, ◌*◌, ◌/◌, ◌%◌, ◌^◌, ◌≤◌, ◌<◌, ◌≡◌, refl, sym, ap, ◌∙◌, ◌≢◌, ◌↔◌, ◌⊎◌, inl,
  inr, ite, if_pos, if_neg, Bool, true, false, ◌&&◌, ◌||◌, not, Option, none, some, List, [], ◌∷◌,
  ◌++◌, map, arith, dec_lt, dec_le, ℕ_discrete, ltb, leb, ◌==◌, if◌then◌else◌, Bool-cases,
  Option-cases, length, length-append, length-map, sum, sum-append, All, All-map, count, retain_ne,
  count-append, count-retain_ne, sum_of_count-eq, u64_mod, u32_mod, checked_add, checked_sub,
  sum_u64, in_u64, sum_u64_lem,
}
use mini_block_chain.Bytes.{Bytes, Text, codes}
use mini_block_chain.External.{Json, Key}
use mini_block_chain.Utxo.{TxInput, TxOutput}
use mini_block_chain.Dispatch.{Message}

-- Serialized with the name of the variant under "action".
pub data NetworkRequest : Type 0 where
  account_creation : (public_key public_key_hash : Text) → NetworkRequest
  transaction :
      (sender_public_key signature recipient_public_key amount : Text) (nonce : ℕ) → NetworkRequest
  utxo_transaction :
      (inputs : List TxInput) (outputs : List TxOutput) (timestamp : ℕ) → NetworkRequest
  faucet : (public_key : Text) → NetworkRequest
  consensus_request : (request_hash : Bytes) (response_port : Text) → NetworkRequest
  heart_beat : (port_address : Text) → NetworkRequest
  peer_ledger_request : (response_port : Text) → NetworkRequest

-- A field of the JSON object of a request.
pub data Field : Type 0 where
  text : Text → Field
  number : ℕ → Field
  bytes : Bytes → Field
  inputs : List TxInput → Field
  outputs : List TxOutput → Field

-- The message as which a node shall take a request.
abbrev pub message_of : NetworkRequest → Message
message_of (NetworkRequest.account_creation key hash) = Message.account_creation
message_of (NetworkRequest.transaction sender signature recipient amount nonce) =
    Message.transaction
message_of (NetworkRequest.utxo_transaction is os timestamp) = Message.utxo_transaction
message_of (NetworkRequest.faucet key) = Message.faucet
message_of (NetworkRequest.consensus_request hash port) = Message.consensus_request
message_of (NetworkRequest.heart_beat port) = Message.heart_beat
message_of (NetworkRequest.peer_ledger_request port) = Message.peer_ledger_request

-- The names of the variants.
abbrev pub variant_name : NetworkRequest → Text
variant_name (NetworkRequest.account_creation key hash) = codes "AccountCreation"
variant_name (NetworkRequest.transaction sender signature recipient amount nonce) =
    codes "Transaction"
variant_name (NetworkRequest.utxo_transaction is os timestamp) = codes "UTXOTransaction"
variant_name (NetworkRequest.faucet key) = codes "Faucet"
variant_name (NetworkRequest.consensus_request hash port) = codes "ConsensusRequest"
variant_name (NetworkRequest.heart_beat port) = codes "HeartBeat"
variant_name (NetworkRequest.peer_ledger_request port) = codes "PeerLedgerRequest"

-- The other fields, by their keys.
abbrev pub fields_of : NetworkRequest → List (Key × Field)
fields_of (NetworkRequest.account_creation key hash) =
    (Key.public_key, Field.text key) ∷ (Key.public_key_hash, Field.text hash) ∷ []
fields_of (NetworkRequest.transaction sender signature recipient amount nonce) =
    (Key.sender_public_key, Field.text sender)
    ∷ (Key.signature, Field.text signature)
    ∷ (Key.recipient_public_key, Field.text recipient)
    ∷ (Key.amount, Field.text amount)
    ∷ (Key.nonce, Field.number nonce)
    ∷ []
fields_of (NetworkRequest.utxo_transaction is os timestamp) =
    (Key.inputs, Field.inputs is)
    ∷ (Key.outputs, Field.outputs os)
    ∷ (Key.timestamp, Field.number timestamp)
    ∷ []
fields_of (NetworkRequest.faucet key) = (Key.public_key, Field.text key) ∷ []
fields_of (NetworkRequest.consensus_request hash port) =
    (Key.request_hash, Field.bytes hash) ∷ (Key.response_port, Field.text port) ∷ []
fields_of (NetworkRequest.heart_beat port) = (Key.port_address, Field.text port) ∷ []
fields_of (NetworkRequest.peer_ledger_request port) = (Key.response_port, Field.text port) ∷ []

module _ {Value : Type 0} (x : Json Value) where
  -- What serde documents of a value that is parsed from what it wrote for a field.
  abbrev pub Carried : Value → Field → Type 0
  Carried v (Field.text t) = x.as_str v ≡ some t
  Carried v (Field.number n) = x.as_u64 v ≡ some n
  Carried v (Field.bytes bs) =
      (vs : List Value) × (x.as_array v ≡ some vs) × (map x.as_u64 vs ≡ map (λ b. some b) bs)
  Carried v (Field.inputs is) =
      (vs : List Value) × (x.as_array v ≡ some vs) × (map x.to_tx_input vs ≡ map (λ i. some i) is)
  Carried v (Field.outputs os) =
      (vs : List Value) × (x.as_array v ≡ some vs) × (map x.to_tx_output vs ≡ map (λ o. some o) os)

  -- A value that is parsed from the JSON text of a request.
  abbrev pub Carries : Value → NetworkRequest → Type 0
  Carries v r =
      All (λ f. Carried (x.index v f.0) f.1)
        ((Key.action, Field.text (variant_name r)) ∷ fields_of r)
