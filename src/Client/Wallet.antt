-- ===== src/Client/Wallet.antt =====
-- src/modules/zk_proof.rs: the side of the client, which makes keys and signs; src/modules/requests.rs:
-- the requests that it sends.
use mini_block_chain.Prelude.{ℕ, Option, none, some, List}
use mini_block_chain.Bytes.{Bytes, Text}
use mini_block_chain.External.{Crypto}
use mini_block_chain.Utxo.{TxInput, TxOutput}
use mini_block_chain.Signature.{create_transaction_message}
use mini_block_chain.Client.{NetworkRequest}

-- What the client calls of secp256k1; keys, messages and signatures are bytes.
pub record Curve : Type 0 where
  pub secret_key_from_slice : Bytes → Option Bytes
  pub public_key_from_secret_key : Bytes → Bytes
  -- `PublicKey::serialize`
  pub serialize : Bytes → Bytes
  -- `Secp256k1::sign`, of a message by a secret key.
  pub sign : Bytes → Bytes → Bytes
  -- `Signature::serialize_compact`
  pub serialize_compact : Bytes → Bytes
  -- `to_string` of the two kinds of keys.
  pub secret_text : Bytes → Text
  pub public_text : Bytes → Text

-- `Ok(…)`, or which of the three errors.
pub data Signing : Type 0 where
  signed : Text → Signing
  failed_to_decode_private_key invalid_private_key failed_to_create_message : Signing

module _ (c : Crypto) (k : Curve) where
  unfoldable pub sign_transaction : Text → Text → Text → Text → ℕ → Signing
  sign_transaction private_key sender recipient amount nonce = elim (c.hex_decode private_key) [
    | none ↦ Signing.failed_to_decode_private_key
    | some key_bytes ↦ elim (k.secret_key_from_slice key_bytes) [
      | none ↦ Signing.invalid_private_key
      | some secret ↦
          elim (c.message_from_slice (create_transaction_message c sender recipient amount nonce)) [
            | none ↦ Signing.failed_to_create_message
            | some message ↦
                Signing.signed (c.hex_encode (k.serialize_compact (k.sign message secret)))
          ]
    ]
  ]

  -- The secret and the public key from 32 random bytes; `none` is the panic on bytes that are no key.
  unfoldable pub generate_keypair : Bytes → Option (Bytes × Bytes)
  generate_keypair random_bytes = elim (k.secret_key_from_slice random_bytes) [
    | none ↦ none
    | some secret ↦ some (secret, k.public_key_from_secret_key secret)
  ]

  -- `none` is a panic: on a text that is not hex, or on bytes that are no key.
  unfoldable pub derive_public_key_from_private_key : Text → Option Text
  derive_public_key_from_private_key private_key = elim (c.hex_decode private_key) [
    | none ↦ none
    | some key_bytes ↦ elim (k.secret_key_from_slice key_bytes) [
      | none ↦ none
      | some secret ↦ some (c.hex_encode (k.serialize (k.public_key_from_secret_key secret)))
    ]
  ]

  unfoldable pub get_public_key_hash : Bytes → Bytes
  get_public_key_hash public_key = c.sha256 (k.serialize public_key)

  -- The request that `send_account_creation_request` sends, with the two key texts that it prints
  -- and saves; `none` is a panic before anything is sent.
  unfoldable pub send_account_creation_request : Bytes → Option (NetworkRequest × (Text × Text))
  send_account_creation_request random_bytes = elim (generate_keypair random_bytes) [
    | none ↦ none
    | some (secret, public) ↦ some (
      NetworkRequest.account_creation (k.public_text public)
          (c.hex_encode (get_public_key_hash public)),
      (k.secret_text secret, k.public_text public),
    )
  ]

  -- The request that `send_transaction_request` sends, always at nonce 0; `none` is a panic.
  unfoldable pub send_transaction_request : Text → Text → Text → Option NetworkRequest
  send_transaction_request private_key recipient amount =
      elim (derive_public_key_from_private_key private_key) [
        | none ↦ none
        | some sender ↦ elim (sign_transaction private_key sender recipient amount 0) [
          | Signing.signed signature ↦
              some (NetworkRequest.transaction sender signature recipient amount 0)
          | Signing.failed_to_decode_private_key ↦ none
          | Signing.invalid_private_key ↦ none
          | Signing.failed_to_create_message ↦ none
        ]
      ]

-- The requests that need no key, at the time that the clock gives.
abbrev pub send_utxo_transaction_request : ℕ → List TxInput → List TxOutput → NetworkRequest
send_utxo_transaction_request time is os = NetworkRequest.utxo_transaction is os time

abbrev pub send_faucet_request : Text → NetworkRequest
send_faucet_request key = NetworkRequest.faucet key
