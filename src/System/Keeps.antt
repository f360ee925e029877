-- ===== src/System/Keeps.antt =====
-- src/modules/validation.rs and src/modules/network.rs: what each write keeps, each verification, each
-- message, each stage of a task and each run of the system keep.
use mini_block_chain.Prelude.{
  ℕ, ◌≡◌, refl, ◌⊎◌, inl, inr, Bool, true, false, Option, List, [], ◌∷◌, ◌++◌, arith, ltb, leb,
  Bool-cases, Option-cases,
}
use mini_block_chain.Bytes.{bytes_discrete, Bytes, Text}
use mini_block_chain.HashMap.{HashMap, insert}
use mini_block_chain.External.{Json, Key, Crypto}
use mini_block_chain.Utxo.{OutPoint, TxInput, UtxoTransaction}
use mini_block_chain.Utxo.Set.{UtxoSet, get_utxo}
use mini_block_chain.Utxo.Apply.{Applied, check_inputs}
use mini_block_chain.Utxo.Amounts.{total_input_amount, total_output_amount}
use mini_block_chain.Merkle.{get_account_balance, get_nonce, account_exists}
use mini_block_chain.Signature.{verify_transaction_signature}
use mini_block_chain.Node.{
  PeerLedgerResponse, ValidatorNode, Action, pure, gets, unwrap, ◌>>=◌, ◌>>◌, update,
}
use mini_block_chain.Node.Request.{str_field, amount_field}
use mini_block_chain.Consensus.{
  vote, votes_of, record_vote, handle_consensus_request, handle_consensus_response,
  determine_majority, majority_of, request_hash_field,
}
use mini_block_chain.Ledger.{store_decision}
use mini_block_chain.Ledger.Transfer.{
  or_zero, or_zero, check_signature, judge_transaction, verify_transaction_independently,
}
use mini_block_chain.Ledger.Spend.{
  parse_transaction, check_input_signatures, judge_utxo_transaction,
  verify_utxo_transaction_independently,
}
use mini_block_chain.Heartbeat.{retain_recent, record_heartbeat, handle_heartbeat}
use mini_block_chain.Adopt.{handle_peer_ledger_request, handle_peer_ledger_response}
use mini_block_chain.System.Stable.{IsStable, bind_keeps}

pub Applied-cases : (a : Applied) → (a ≡ Applied.ok) ⊎ ((o : OutPoint) × (a ≡ Applied.not_found o))
Applied-cases Applied.ok = inl refl
Applied-cases (Applied.not_found o) = inr (o, refl)

module _ {Value : Type 0} (x : Json Value) (c : Crypto) (P : ValidatorNode → Type 0)
    (stable : IsStable c P) where
  pub decision_keeps :
      (r : Value) (d : Bool) (n : ValidatorNode) → P n → P (store_decision x c r d n)
  decision_keeps r d n h = stable.decides (store_decision x c r d n).client_decisions n h

  -- The signatures used after the check of a request.
  signed : (r : Value) (n : ValidatorNode) → P n → P (check_signature x c r n).1
  signed r n h =
      stable.signs (str_field x Key.signature r) (str_field x Key.sender_public_key r)
        (str_field x Key.recipient_public_key r) (str_field x Key.amount r)
        (or_zero (get_nonce (str_field x Key.sender_public_key r) n.merkle_tree)) n h

  -- What `judge_transaction` does once it knows whether the signature holds.
  abbrev balance_test : Value → Bool → Action Bool
  balance_test r holds = elim holds [
    | false ↦ pure false
    | true ↦ do
      tree ← gets (λ m. m.merkle_tree)
      balance ← unwrap (get_account_balance (str_field x Key.sender_public_key r) tree)
      pure (leb (amount_field x r) balance)
  ]

  balance_keeps :
      (r : Value) (holds : Bool) (n : ValidatorNode) → P n → P (balance_test r holds n).1
  balance_keeps r false n h = h
  balance_keeps r true n h =
      elim (Option-cases
        (get_account_balance (str_field x Key.sender_public_key r) n.merkle_tree)) [
          | inl e ↦ rw e h
          | inr (b, e) ↦ rw e h
        ]

  judge_keeps : (r : Value) (n : ValidatorNode) → P n → P (judge_transaction x c r n).1
  unfolding judge_transaction
  judge_keeps r n h =
      elim (Bool-cases (account_exists (str_field x Key.sender_public_key r) n.merkle_tree)) [
        | inr e ↦ rw (e, judge_transaction) h
        | inl e ↦
            elim (Bool-cases
              (account_exists (str_field x Key.recipient_public_key r) n.merkle_tree)) [
                | inr e' ↦ rw (e, judge_transaction, e') h
                | inl e' ↦
                    rw (e, judge_transaction, e')
                      (bind_keeps P (check_signature x c r) (balance_test r) n (signed r n h)
                        (λ holds n' h'. balance_keeps r holds n' h'))
              ]
      ]

  pub transaction_keeps :
      (r : Value) (n : ValidatorNode) → P n → P (verify_transaction_independently x c r n).1
  unfolding verify_transaction_independently
  transaction_keeps r n h =
      bind_keeps P (judge_transaction x c r) (λ d. update (store_decision x c r d) >>= λ _. pure d)
        n (judge_keeps r n h) (λ d n' h'. decision_keeps r d n' h')

  -- The signatures used after the first input of a list.
  abbrev after_first : TxInput → HashMap Bytes (List Text) → HashMap Bytes (List Text)
  after_first i used =
      (verify_transaction_signature c i.signature (c.hex_encode i.public_key) [] [] 0 used).1

  nothing_used :
      (s : UtxoSet) (used : HashMap Bytes (List Text))
      → (check_input_signatures x c [] s used).1 ≡ used
  unfolding check_input_signatures
  nothing_used s used = refl

  used_cases :
      (i : TxInput) (is : List TxInput) (s : UtxoSet) (used : HashMap Bytes (List Text))
      → ((check_input_signatures x c (i ∷ is) s used).1 ≡ used)
        ⊎ (((check_input_signatures x c (i ∷ is) s used).1 ≡ after_first i used)
            ⊎ ((check_input_signatures x c (i ∷ is) s used).1
                ≡ (check_input_signatures x c is s (after_first i used)).1))
  unfolding check_input_signatures
  used_cases i is s used = elim (Option-cases (get_utxo i.outpoint s)) [
    | inl e ↦ inl (ground (arith, e))
    | inr (u, e) ↦ elim (bytes_discrete i.public_key u.recipient) [
      | no d ↦ inl (ground (arith, e, d))
      | yes p ↦
          elim (Bool-cases
            (verify_transaction_signature c i.signature (c.hex_encode i.public_key) [] [] 0
              used).0) [
                | inr f ↦ inr (inl (ground (arith, e, p, f)))
                | inl f ↦ inr (inr (ground (arith, e, p, f)))
              ]
    ]
  ]

  inputs_keep :
      (is : List TxInput) (s : UtxoSet) (n : ValidatorNode)
      → P n
      → P (record n { used_zk_proofs = (check_input_signatures x c is s n.used_zk_proofs).1 })
  inputs_keep [] s n h = rw (nothing_used s n.used_zk_proofs) h
  inputs_keep (i ∷ is) s n h =
      let h' = stable.signs i.signature (c.hex_encode i.public_key) [] [] 0 n h in
      elim (used_cases i is s n.used_zk_proofs) [
        | inl e ↦ rw e h
        | inr (inl e) ↦ rw e h'
        | inr (inr e) ↦
            rw e
              (inputs_keep is s (record n { used_zk_proofs = after_first i n.used_zk_proofs }) h')
      ]

  judge_utxo_keeps :
      (tx : UtxoTransaction) (n : ValidatorNode) → P n → P (judge_utxo_transaction x c tx n).1
  unfolding judge_utxo_transaction
  judge_utxo_keeps tx n h = elim (Applied-cases (check_inputs tx.inputs n.utxo_set)) [
    | inr (o, e) ↦ rw (e, judge_utxo_transaction) h
    | inl e ↦ elim (Option-cases (total_input_amount tx n.utxo_set)) [
      | inl p ↦ rw (e, judge_utxo_transaction, p) h
      | inr (i, p) ↦ elim (Option-cases (total_output_amount tx)) [
        | inl q ↦ rw (e, judge_utxo_transaction, p, q) h
        | inr (o, q) ↦ elim (Bool-cases (ltb i o)) [
          | inl l ↦ rw (e, judge_utxo_transaction, p, q, l) h
          | inr l ↦ rw (e, judge_utxo_transaction, p, q, l) (inputs_keep tx.inputs n.utxo_set n h)
        ]
      ]
    ]
  ]

  -- What follows the tests of a UTXO transaction.
  abbrev record_acceptance : Value → Bool → Action Bool
  record_acceptance r valid = elim valid [
    | false ↦ pure false
    | true ↦ update (store_decision x c r true) >> pure true
  ]

  acceptance_keeps :
      (r : Value) (valid : Bool) (n : ValidatorNode) → P n → P (record_acceptance r valid n).1
  acceptance_keeps r false n h = h
  acceptance_keeps r true n h = decision_keeps r true n h

  pub utxo_keeps :
      (r : Value) (n : ValidatorNode) → P n → P (verify_utxo_transaction_independently x c r n).1
  unfolding verify_utxo_transaction_independently
  utxo_keeps r n h = elim (Option-cases (parse_transaction x c r)) [
    | inl e ↦ rw (e, verify_utxo_transaction_independently) h
    | inr (tx, e) ↦
        rw (e, verify_utxo_transaction_independently)
          (bind_keeps P (judge_utxo_transaction x c tx) (record_acceptance r) n
            (judge_utxo_keeps tx n h) (λ valid n' h'. acceptance_keeps r valid n' h'))
  ]

  -- A vote, and the other messages that ask for no block.
  vote_keeps : (hash : Bytes) (d : Bool) (n : ValidatorNode) → P n → P (record_vote hash d n).1
  unfolding record_vote
  vote_keeps hash d n h = elim (Option-cases (vote d (votes_of hash n))) [
    | inl e ↦ rw (e, record_vote) h
    | inr (v, e) ↦
        rw (e, record_vote) (stable.votes (insert bytes_discrete hash v n.peer_decisions) n h)
  ]

  pub response_keeps :
      (r : Value) (n : ValidatorNode) → P n → P (handle_consensus_response x c.sha256 r n).1
  unfolding handle_consensus_response
  response_keeps r n h = elim (Option-cases (request_hash_field x c.sha256 r)) [
    | inl e ↦ rw (e, handle_consensus_response) h
    | inr (hash, e) ↦ elim (Option-cases (x.as_bool (x.index r Key.decision))) [
      | inl q ↦ rw (e, handle_consensus_response, q) h
      | inr (d, q) ↦ rw (e, handle_consensus_response, q) (vote_keeps hash d n h)
    ]
  ]

  pub heartbeat_keeps :
      (r : Value) (now : ℕ) (n : ValidatorNode) → P n → P (handle_heartbeat x r now n).1
  unfolding handle_heartbeat
  heartbeat_keeps r now n h = elim (Option-cases (x.as_str (x.index r Key.port_address))) [
    | inl e ↦ rw (e, handle_heartbeat) h
    | inr (port, e) ↦
        elim (Bool-cases (retain_recent now (record_heartbeat port now n.active_peers)).0) [
          | inl f ↦ rw (e, handle_heartbeat, f) (stable.hears port now n h)
          | inr f ↦ rw (e, handle_heartbeat, f) (stable.hears port now n h)
        ]
  ]

  pub reads_only :
      (r : Value) (n : ValidatorNode)
      → ((handle_consensus_request x c.sha256 r n).1 ≡ n)
        × ((handle_peer_ledger_request x r n).1 ≡ n)
        × ((determine_majority x c.sha256 r n).1 ≡ n)
  unfolding handle_consensus_request handle_peer_ledger_request determine_majority majority_of
  reads_only r n = (ground arith, ground arith, ground arith)

  module _ (parse : Value → Option PeerLedgerResponse) where
    pub ledger_keeps :
        (r : Value) (n : ValidatorNode) → P n → P (handle_peer_ledger_response x parse r n).1
    unfolding handle_peer_ledger_response
    ledger_keeps r n h = elim (Option-cases (parse r)) [
      | inl e ↦ rw (e, handle_peer_ledger_response) h
      | inr (response, e) ↦
          rw (e, handle_peer_ledger_response)
            (stable.learns (n.peer_ledger_states ++ response ∷ []) n h)
    ]
