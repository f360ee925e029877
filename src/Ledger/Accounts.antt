-- ===== src/Ledger/Accounts.antt =====
-- src/modules/validation.rs: the handlers of account creation and of the faucet.
use mini_block_chain.Prelude.{ℕ, Bool, true, false, not, [], checked_add}
use mini_block_chain.Bytes.{Bytes}
use mini_block_chain.External.{Json, Key, Crypto}
use mini_block_chain.Merkle.{
  Account, insert_account, account_exists, get_account_balance, change_balance,
}
use mini_block_chain.Chain.{Block}
use mini_block_chain.Node.{
  done, Action, Env, pure, gets, unwrap, ◌>>=◌, ◌>>◌, update, set_tree, write_block,
}
use mini_block_chain.Node.Request.{str_field}
use mini_block_chain.Ledger.{faucet_amount, Schedule, store_decision, consult}

-- `Ok(())` or `Err("invalid request")`.
pub data Reply : Type 0 where
  accepted invalid_request : Reply

-- The account that a creation adds.
abbrev pub fresh_account : Bytes → Bytes → Account
fresh_account key key_hash = record {
  public_key = key;
  public_key_hash = key_hash;
  balance = 0;
  nonce = 0;
}

module _ {Value : Type 0} (x : Json Value) (c : Crypto) where
  unfoldable pub verify_account_creation_independently : Value → Env
  verify_account_creation_independently r n =
      store_decision x c r (not (account_exists (str_field x Key.public_key r) n.merkle_tree)) n

  -- It panics on a hash that is no hex text.
  unfoldable pub add_account_creation_to_ledger : Value → ℕ → Action (Unit {0})
  add_account_creation_to_ledger r time = do
    let key = str_field x Key.public_key r
    key_hash ← unwrap (c.hex_decode (str_field x Key.public_key_hash r))
    update (λ n. set_tree (insert_account (fresh_account key key_hash) n.merkle_tree) n)
    write_block c.sha256 (Block.new_account key 0 time [])

  unfoldable pub handle_account_creation_request : Value → Schedule → ℕ → Action Reply
  handle_account_creation_request r s time = do
    update (verify_account_creation_independently r)
    agreed ← consult x c r s
    elim agreed [
      | false ↦ pure Reply.invalid_request
      | true ↦ add_account_creation_to_ledger r time >> pure Reply.accepted
    ]

  unfoldable pub verify_faucet_request_independently : Value → Action Bool
  verify_faucet_request_independently r n =
      let decision = account_exists (str_field x Key.public_key r) n.merkle_tree in
      (done decision, store_decision x c r decision n)

  unfoldable pub add_faucet_request_to_ledger : Value → ℕ → Action (Unit {0})
  add_faucet_request_to_ledger r time = do
    let key = str_field x Key.public_key r
    tree ← gets (λ n. n.merkle_tree)
    balance ← unwrap (get_account_balance key tree)
    new_balance ← unwrap (checked_add balance faucet_amount)
    update (set_tree (change_balance key new_balance tree))
    write_block c.sha256 (Block.faucet key new_balance time [])

  -- It returns `Ok(())` on every path.
  unfoldable pub handle_faucet_request : Value → Schedule → ℕ → Action (Unit {0})
  handle_faucet_request r s time = do
    valid ← verify_faucet_request_independently r
    elim valid [
      | false ↦ pure tt
      | true ↦ do
        agreed ← consult x c r s
        elim agreed [ false ↦ pure tt | true ↦ add_faucet_request_to_ledger r time ]
    ]
