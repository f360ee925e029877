-- ===== src/Ledger/Transfer.antt =====
-- src/modules/validation.rs: the handler of a transaction between accounts.
use mini_block_chain.Prelude.{
  ℕ, Bool, true, false, Option, none, some, [], leb, checked_add, checked_sub,
}
use mini_block_chain.Bytes.{Bytes}
use mini_block_chain.External.{Json, Key, Crypto}
use mini_block_chain.Merkle.{
  account_exists, get_account_balance, get_nonce, change_balance, increment_nonce,
}
use mini_block_chain.Chain.{Block}
use mini_block_chain.Signature.{verify_transaction_signature}
use mini_block_chain.Node.{
  done, Action, pure, gets, unwrap, ◌>>=◌, ◌>>◌, update, set_tree, write_block,
}
use mini_block_chain.Node.Request.{str_field, amount_field}
use mini_block_chain.Ledger.{Schedule, store_decision, consult}

abbrev pub or_zero : Option ℕ → ℕ
or_zero none = 0
or_zero (some n) = n

-- The three writes to the tree, at the balances already computed.
unfoldable pub move_balances : Bytes → ℕ → Bytes → ℕ → Action (Unit {0})
move_balances sender sender_balance recipient recipient_balance = do
  update (λ n. set_tree (change_balance sender sender_balance n.merkle_tree) n)
  tree ← gets (λ n. n.merkle_tree)
  counted ← unwrap (increment_nonce sender tree)
  update (set_tree counted)
  update (λ n. set_tree (change_balance recipient recipient_balance n.merkle_tree) n)

module _ {Value : Type 0} (x : Json Value) (c : Crypto) where
  -- The signature check of a request, at the nonce that the tree has for the sender.
  abbrev pub check_signature : Value → Action Bool
  check_signature r n =
      let (holds, used) =
        verify_transaction_signature c (str_field x Key.signature r)
          (str_field x Key.sender_public_key r) (str_field x Key.recipient_public_key r)
          (str_field x Key.amount r)
          (or_zero (get_nonce (str_field x Key.sender_public_key r) n.merkle_tree))
          n.used_zk_proofs in
      (done holds, record n { used_zk_proofs = used })

  -- The chain of tests; a signature that holds is used up before the balance is looked at.
  unfoldable pub judge_transaction : Value → Action Bool
  judge_transaction r n =
      elim (account_exists (str_field x Key.sender_public_key r) n.merkle_tree) [
        | false ↦ (done false, n)
        | true ↦ elim (account_exists (str_field x Key.recipient_public_key r) n.merkle_tree) [
          | false ↦ (done false, n)
          | true ↦
              (do
                holds ← check_signature r
                elim holds [
                  | false ↦ pure false
                  | true ↦ do
                    tree ← gets (λ m. m.merkle_tree)
                    balance ←
                        unwrap (get_account_balance (str_field x Key.sender_public_key r) tree)
                    pure (leb (amount_field x r) balance)
                ])
                n
        ]
      ]

  unfoldable pub verify_transaction_independently : Value → Action Bool
  verify_transaction_independently r = do
    decision ← judge_transaction r
    update (store_decision x c r decision)
    pure decision

  -- The subtraction and the addition are checked: either panics before anything is written.
  unfoldable pub add_transaction_to_ledger : Value → ℕ → Action (Unit {0})
  add_transaction_to_ledger r time = do
    let sender = str_field x Key.sender_public_key r
    let recipient = str_field x Key.recipient_public_key r
    let amount = amount_field x r
    tree ← gets (λ n. n.merkle_tree)
    old_sender_balance ← unwrap (get_account_balance sender tree)
    old_recipient_balance ← unwrap (get_account_balance recipient tree)
    sender_nonce ← unwrap (get_nonce sender tree)
    sender_balance ← unwrap (checked_sub old_sender_balance amount)
    recipient_balance ← unwrap (checked_add old_recipient_balance amount)
    move_balances sender sender_balance recipient recipient_balance
    write_block c.sha256 (
        Block.transaction sender sender_balance recipient recipient_balance amount time sender_nonce
          [])

  unfoldable pub handle_transaction_request : Value → Schedule → ℕ → Action Bool
  handle_transaction_request r s time = do
    verify_transaction_independently' r
    agreed ← consult x c r s
    elim agreed [ false ↦ pure false | true ↦ add_transaction_to_ledger r time >> pure true ]
    where
      -- The decision that it returns is not used here.
      verify_transaction_independently' : Value → Action (Unit {0})
      verify_transaction_independently' q = verify_transaction_independently q >>= λ _. pure tt
