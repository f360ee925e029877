-- ===== src/Ledger/Minting.antt =====
-- src/modules/validation.rs: what account creation and the faucet write.
use mini_block_chain.Prelude.{
  ℕ, ◌+◌, ◌<◌, ◌≡◌, refl, ite, true, false, some, [], ◌∷◌, ◌++◌, arith, u64_mod, checked_add,
}
use mini_block_chain.Bytes.{Bytes, bytes_discrete}
use mini_block_chain.HashMap.Laws.{get-insert}
use mini_block_chain.External.{Json, Key, Crypto}
use mini_block_chain.Merkle.{
  Account, MerkleTree, account_exists, get_account_balance, insert_account, change_balance,
}
use mini_block_chain.Merkle.Accounts.{
  IsConsistent, insert_account-IsConsistent, change_balance-IsConsistent,
  get_account_balance-change_balance,
}
use mini_block_chain.Chain.{Block, request_address, set_block_hash}
use mini_block_chain.Chain.Push.{store_then_push_total}
use mini_block_chain.Node.{ValidatorNode, done}
use mini_block_chain.Node.Request.{str_field}
use mini_block_chain.Ledger.{faucet_amount}
use mini_block_chain.Ledger.Accounts.{
  fresh_account, add_account_creation_to_ledger, add_faucet_request_to_ledger,
}

known :
    (k : Bytes) (b : ℕ) (t : MerkleTree)
    → get_account_balance k t ≡ some b
    → account_exists k t ≡ true
unfolding account_exists get_account_balance
known k b t e = ground (arith, e)

get_account_balance-insert_account :
    (a : Account) (k : Bytes) (t : MerkleTree)
    → get_account_balance k (insert_account a t)
      ≡ ite (bytes_discrete a.public_key k) (some a.balance) (get_account_balance k t)
unfolding get_account_balance insert_account
get_account_balance-insert_account a k t =
    get-insert bytes_discrete a.public_key k a.balance t.accounts_map

module _ {Value : Type 0} (x : Json Value) (c : Crypto) where
  -- An agreed faucet request for a known account in consistent stores whose new balance fits a
  -- u64: it ends, the account has `faucet_amount` tokens more, no other balance changes, the
  -- stores of the accounts stay in step, and the chain grows by the block of the grant.
  pub add_faucet_request_to_ledger_lem :
      (r : Value) (time b : ℕ) (n : ValidatorNode)
      → IsConsistent n.merkle_tree
      → get_account_balance (str_field x Key.public_key r) n.merkle_tree ≡ some b
      → b + faucet_amount < u64_mod
      → (n' : ValidatorNode) × (add_faucet_request_to_ledger x c r time n ≡ (done tt, n'))
        × ((k : Bytes)
            → get_account_balance k n'.merkle_tree
              ≡ ite
                  (bytes_discrete (str_field x Key.public_key r) k)
                  (some (b + faucet_amount))
                  (get_account_balance k n.merkle_tree))
        × IsConsistent n'.merkle_tree
        × (n'.blockchain.chain
            ≡ n.blockchain.chain
              ++ set_block_hash c.sha256
                  (Block.faucet (str_field x Key.public_key r) (b + faucet_amount) time [])
                ∷ [])
  unfolding add_faucet_request_to_ledger request_address checked_add
  add_faucet_request_to_ledger_lem r time b n h e fits =
      let key : Bytes = str_field x Key.public_key r in
      let (chain, pushed, grown) =
        store_then_push_total c.sha256 (Block.faucet key (b + faucet_amount) time []) n.blockchain
          {address = key} refl in
      (
        record n {
          merkle_tree = change_balance key (b + faucet_amount) n.merkle_tree;
          blockchain = chain;
        },
        ground (arith, e, fits, pushed),
        (λ k. ground (
          arith,
          known key b n.merkle_tree e,
          (get_account_balance-change_balance key k (b + faucet_amount) n.merkle_tree).0,
        )),
        change_balance-IsConsistent key (b + faucet_amount) n.merkle_tree h,
        grown,
      )

  -- An agreed account creation in consistent stores whose hash of the key is hex text, for a key
  -- not known: it ends, the account exists with no tokens, no other balance changes, the stores of
  -- the accounts stay in step, and the chain grows by the block of the account.
  pub add_account_creation_to_ledger_lem :
      (r : Value) (time : ℕ) (key_hash : Bytes) (n : ValidatorNode)
      → IsConsistent n.merkle_tree
      → account_exists (str_field x Key.public_key r) n.merkle_tree ≡ false
      → c.hex_decode (str_field x Key.public_key_hash r) ≡ some key_hash
      → (n' : ValidatorNode) × (add_account_creation_to_ledger x c r time n ≡ (done tt, n'))
        × ((k : Bytes)
            → get_account_balance k n'.merkle_tree
              ≡ ite
                  (bytes_discrete (str_field x Key.public_key r) k)
                  (some 0)
                  (get_account_balance k n.merkle_tree))
        × IsConsistent n'.merkle_tree
        × (n'.blockchain.chain
            ≡ n.blockchain.chain
              ++ set_block_hash c.sha256
                  (Block.new_account (str_field x Key.public_key r) 0 time [])
                ∷ [])
  unfolding add_account_creation_to_ledger request_address
  add_account_creation_to_ledger_lem r time key_hash n h e decoded =
      let key : Bytes = str_field x Key.public_key r in
      let a : Account = fresh_account key key_hash in
      let (chain, pushed, grown) =
        store_then_push_total c.sha256 (Block.new_account key 0 time []) n.blockchain
          {address = key} refl in
      (
        record n { merkle_tree = insert_account a n.merkle_tree; blockchain = chain },
        ground (arith, decoded, pushed),
        (λ k. get_account_balance-insert_account a k n.merkle_tree),
        insert_account-IsConsistent a n.merkle_tree h e,
        grown,
      )
