-- ===== src/Ledger/Verdict.antt =====
-- src/modules/validation.rs, `verify_transaction_independently`: when a node accepts a transaction.
use mini_block_chain.Prelude.{◌≡◌, Bool, true, ◌&&◌, not, some, arith, leb}
use mini_block_chain.Bytes.{Bytes, bytes_discrete}
use mini_block_chain.HashMap.{get}
use mini_block_chain.HashMap.Laws.{get-insert}
use mini_block_chain.External.{Json, Key, Crypto}
use mini_block_chain.Merkle.{MerkleTree, account_exists, get_account_balance, get_nonce}
use mini_block_chain.Signature.{is_used, used_by, signature_holds}
use mini_block_chain.Signature.Replay.{verify_transaction_signature_lem}
use mini_block_chain.Node.{ValidatorNode, done}
use mini_block_chain.Node.Request.{str_field, amount_field, hash_network_request}
use mini_block_chain.Ledger.Transfer.{or_zero, judge_transaction, verify_transaction_independently}

-- What the balance of a known account is.
pub known_balance :
    (k : Bytes) (t : MerkleTree)
    → account_exists k t ≡ true
    → get_account_balance k t ≡ some (or_zero (get_account_balance k t))
unfolding account_exists get_account_balance
known_balance k t e = ground (arith, e)

module _ {Value : Type 0} (x : Json Value) (c : Crypto) where
  -- The tests of a transaction, all of them, on the state at hand.
  abbrev pub is_acceptable : Value → ValidatorNode → Bool
  is_acceptable r n =
      let sender = str_field x Key.sender_public_key r in
      let recipient = str_field x Key.recipient_public_key r in
      let signature = str_field x Key.signature r in
      account_exists sender n.merkle_tree
      && (account_exists recipient n.merkle_tree
          && ((signature_holds c signature sender recipient (str_field x Key.amount r)
                  (or_zero (get_nonce sender n.merkle_tree))
                && not (is_used signature (used_by c sender n.used_zk_proofs)))
              && leb (amount_field x r) (or_zero (get_account_balance sender n.merkle_tree))))

  judged :
      (r : Value) (n : ValidatorNode)
      → let (outcome, n') = judge_transaction x c r n in
        (outcome ≡ done (is_acceptable r n))
        × (n' ≡ record n { used_zk_proofs = n'.used_zk_proofs })
  unfolding judge_transaction
  judged r n = ground (
    arith,
    known_balance (str_field x Key.sender_public_key r) n.merkle_tree,
    (verify_transaction_signature_lem c (str_field x Key.signature r)
        (str_field x Key.sender_public_key r) (str_field x Key.recipient_public_key r)
        (str_field x Key.amount r)
        (or_zero (get_nonce (str_field x Key.sender_public_key r) n.merkle_tree))
        n.used_zk_proofs).0,
  )

  -- The verification of a transaction never panics. It accepts exactly if both accounts are
  -- known, the signature holds at the sender's nonce and was not used by the sender before, and
  -- the sender's balance covers the amount. The decision is on record under the request's hash
  -- afterwards, and besides the decisions and the used signatures nothing changes.
  pub verify_transaction_independently_lem :
      (r : Value) (n : ValidatorNode)
      → let (outcome, n') = verify_transaction_independently x c r n in
        (outcome ≡ done (is_acceptable r n))
        × (get bytes_discrete (hash_network_request x c.sha256 r) n'.client_decisions
            ≡ some (is_acceptable r n))
        × (n' ≡ record n {
          client_decisions = n'.client_decisions;
          used_zk_proofs = n'.used_zk_proofs;
        })
  unfolding verify_transaction_independently
  verify_transaction_independently_lem r n = ground (
    arith,
    judged r n,
    get-insert bytes_discrete (hash_network_request x c.sha256 r)
        (hash_network_request x c.sha256 r) (is_acceptable r n)
        (judge_transaction x c r n).1.client_decisions,
  )
