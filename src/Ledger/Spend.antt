-- ===== src/Ledger/Spend.antt =====
-- src/modules/validation.rs: the handler of a UTXO transaction.
use mini_block_chain.Prelude.{Bool, true, false, Option, none, some, List, [], ◌∷◌, ltb, length}
use mini_block_chain.Bytes.{Bytes, Text, bytes_discrete}
use mini_block_chain.HashMap.{HashMap}
use mini_block_chain.External.{Json, Key, Crypto}
use mini_block_chain.Utxo.{TxInput, UtxoTransaction, new_transaction}
use mini_block_chain.Utxo.Set.{UtxoSet, get_utxo}
use mini_block_chain.Utxo.Amounts.{total_input_amount, total_output_amount}
use mini_block_chain.Utxo.Apply.{Applied, check_inputs, apply_transaction}
use mini_block_chain.Chain.{Block, push_block_to_chain}
use mini_block_chain.Signature.{verify_transaction_signature}
use mini_block_chain.Node.{ValidatorNode, done, panicked, Action, pure, ◌>>=◌, ◌>>◌, update}
use mini_block_chain.Node.Request.{u64_field}
use mini_block_chain.Ledger.{Schedule, store_decision, consult}

-- Every item parsed, or none.
unfoldable pub parse_all : {V A : Type 0} → (V → Option A) → List V → Option (List A)
parse_all parse [] = some []
parse_all parse (v ∷ vs) = elim (parse v) [
  | none ↦ none
  | some a ↦ elim (parse_all parse vs) [ none ↦ none | some as' ↦ some (a ∷ as') ]
]

module _ {Value : Type 0} (x : Json Value) (c : Crypto) where
  -- `none` if a list is missing or an item of it does not parse.
  unfoldable pub parse_transaction : Value → Option UtxoTransaction
  parse_transaction r = elim (x.as_array (x.index r Key.inputs)) [
    | none ↦ none
    | some vs ↦ elim (parse_all x.to_tx_input vs) [
      | none ↦ none
      | some inputs ↦ elim (x.as_array (x.index r Key.outputs)) [
        | none ↦ none
        | some ws ↦ elim (parse_all x.to_tx_output ws) [
          | none ↦ none
          | some outputs ↦
              some (new_transaction c.sha256 inputs outputs (u64_field x Key.timestamp r))
        ]
      ]
    ]
  ]

  -- The loop over the inputs: the owner's key, and a signature for no recipient, amount or nonce.
  unfoldable pub check_input_signatures :
      List TxInput → UtxoSet → HashMap Bytes (List Text) → Bool × HashMap Bytes (List Text)
  check_input_signatures [] s used = (true, used)
  check_input_signatures (i ∷ is) s used = elim (get_utxo i.outpoint s) [
    | none ↦ (false, used)
    | some utxo ↦ elim (bytes_discrete i.public_key utxo.recipient) [
      | no _ ↦ (false, used)
      | yes _ ↦
          let (holds, used') =
            verify_transaction_signature c i.signature (c.hex_encode i.public_key) [] [] 0 used in
          elim holds [ false ↦ (false, used') | true ↦ check_input_signatures is s used' ]
    ]
  ]

  -- The tests of a parsed transaction; it panics if its outputs do not fit a u64.
  unfoldable pub judge_utxo_transaction : UtxoTransaction → Action Bool
  judge_utxo_transaction tx n = elim (check_inputs tx.inputs n.utxo_set) [
    | Applied.not_found _ ↦ (done false, n)
    | Applied.ok ↦ elim (total_input_amount tx n.utxo_set) [
      | none ↦ (done false, n)
      | some input_amount ↦ elim (total_output_amount tx) [
        | none ↦ (panicked, n)
        | some output_amount ↦ elim (ltb input_amount output_amount) [
          | true ↦ (done false, n)
          | false ↦
              let (holds, used) = check_input_signatures tx.inputs n.utxo_set n.used_zk_proofs in
              (done holds, record n { used_zk_proofs = used })
        ]
      ]
    ]
  ]

  -- A decision is stored only if every test passes.
  unfoldable pub verify_utxo_transaction_independently : Value → Action Bool
  verify_utxo_transaction_independently r n = elim (parse_transaction r) [
    | none ↦ (done false, n)
    | some tx ↦
        (do
          valid ← judge_utxo_transaction tx
          elim valid [
            | false ↦ pure false
            | true ↦ update (store_decision x c r true) >> pure true
          ])
          n
  ]

  -- The chain is locked for its height, then the set, and then the chain again for the block: other
  -- tasks may run after each of the first two.
  unfoldable pub add_utxo_transaction_to_ledger : Value → Schedule → Action (Unit {0})
  add_utxo_transaction_to_ledger r s n = elim (parse_transaction r) [
    | none ↦ (panicked, n)
    | some tx ↦
        let height = length n.blockchain.chain in
        let m : ValidatorNode = s.height_read n in
        let (utxo_set, result) = apply_transaction tx height m.utxo_set in
        elim result [
          | Applied.not_found _ ↦ (done tt, m)
          | Applied.ok ↦
              let m' : ValidatorNode = s.spent (record m { utxo_set = utxo_set }) in
              elim (push_block_to_chain c.sha256 (Block.utxo_transaction tx height [])
                m'.blockchain) [
                  | none ↦ (panicked, m')
                  | some chain ↦ (done tt, record m' { blockchain = chain })
                ]
        ]
  ]

  unfoldable pub handle_utxo_transaction_request : Value → Schedule → Action Bool
  handle_utxo_transaction_request r s = do
    valid ← verify_utxo_transaction_independently r
    elim valid [
      | false ↦ pure false
      | true ↦ do
        agreed ← consult x c r s
        elim agreed [ false ↦ pure false | true ↦ add_utxo_transaction_to_ledger r s >> pure true ]
    ]
