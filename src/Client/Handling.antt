-- ===== src/Client/Handling.antt =====
-- src/modules/requests.rs and src/modules/validation.rs: what a node does with a request that was sent,
-- in terms of what was sent.
use mini_block_chain.Prelude.{ℕ, ◌≡◌, ite, ◌&&◌, not, none, some, leb, checked_add}
use mini_block_chain.Bytes.{Text, bytes_discrete}
use mini_block_chain.HashMap.{get}
use mini_block_chain.External.{Json, Crypto}
use mini_block_chain.Utxo.{new_transaction}
use mini_block_chain.Merkle.{
  account_exists, get_account_balance, get_nonce, insert_account, change_balance,
}
use mini_block_chain.Signature.{signature_holds, is_used, used_by}
use mini_block_chain.Node.{ValidatorNode, done, panicked}
use mini_block_chain.Node.Request.{parse_u64, hash_network_request}
use mini_block_chain.Consensus.{handle_consensus_request}
use mini_block_chain.Ledger.{faucet_amount}
use mini_block_chain.Ledger.Accounts.{
  fresh_account, verify_account_creation_independently, add_account_creation_to_ledger,
  verify_faucet_request_independently, add_faucet_request_to_ledger,
}
use mini_block_chain.Ledger.Transfer.{or_zero, verify_transaction_independently}
use mini_block_chain.Ledger.Spend.{judge_utxo_transaction, verify_utxo_transaction_independently}
use mini_block_chain.Heartbeat.{handle_heartbeat}
use mini_block_chain.Heartbeat.Peers.{recent}
use mini_block_chain.Adopt.{response_of, handle_peer_ledger_request}
use mini_block_chain.Client.{NetworkRequest}

module _ {Value : Type 0} (x : Json Value) (c : Crypto) where
  -- What the handler of a request does with a value on a node at a time, by the fields of the
  -- request.
  abbrev pub IsHandled : Value → ValidatorNode → ℕ → NetworkRequest → Type 0
  IsHandled v n now (NetworkRequest.account_creation key key_hash) =
      (get bytes_discrete (hash_network_request x c.sha256 v)
          (verify_account_creation_independently x c v n).client_decisions
        ≡ some (not (account_exists key n.merkle_tree)))
      × ((add_account_creation_to_ledger x c v now n).1.merkle_tree ≡ elim (c.hex_decode key_hash) [
        | none ↦ n.merkle_tree
        | some decoded ↦ insert_account (fresh_account key decoded) n.merkle_tree
      ])
  IsHandled v n now (NetworkRequest.transaction sender signature recipient amount nonce) =
      (verify_transaction_independently x c v n).0
      ≡ done (
          account_exists sender n.merkle_tree
          && (account_exists recipient n.merkle_tree
              && ((signature_holds c signature sender recipient amount
                      (or_zero (get_nonce sender n.merkle_tree))
                    && not (is_used signature (used_by c sender n.used_zk_proofs)))
                  && leb (or_zero (parse_u64 amount))
                      (or_zero (get_account_balance sender n.merkle_tree)))))
  IsHandled v n now (NetworkRequest.utxo_transaction is os timestamp) =
      (verify_utxo_transaction_independently x c v n).0
      ≡ (judge_utxo_transaction x c (new_transaction c.sha256 is os timestamp) n).0
  IsHandled v n now (NetworkRequest.faucet key) =
      ((verify_faucet_request_independently x c v n).0 ≡ done (account_exists key n.merkle_tree))
      × ((add_faucet_request_to_ledger x c v now n).1.merkle_tree
          ≡ elim (get_account_balance key n.merkle_tree) [
            | none ↦ n.merkle_tree
            | some old ↦ elim (checked_add old faucet_amount) [
              | none ↦ n.merkle_tree
              | some balance ↦ change_balance key balance n.merkle_tree
            ]
          ])
  IsHandled v n now (NetworkRequest.consensus_request hash port) =
      handle_consensus_request x c.sha256 v n ≡ elim (get bytes_discrete hash n.client_decisions) [
        | none ↦ (panicked, n)
        | some own ↦
            (done (record { request_hash = hash; decision = own; response_port = port }), n)
      ]
  IsHandled v n now (NetworkRequest.heart_beat port) =
      (p : Text)
      → get bytes_discrete p (handle_heartbeat x v now n).1.active_peers
        ≡ ite (bytes_discrete port p) (some now) (recent now (get bytes_discrete p n.active_peers))
  IsHandled v n now (NetworkRequest.peer_ledger_request port) =
      handle_peer_ledger_request x v n ≡ (done (response_of n, port), n)
