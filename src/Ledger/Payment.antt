-- ===== src/Ledger/Payment.antt =====
-- src/modules/validation.rs, `add_transaction_to_ledger`: the transfer of a request as a whole.
use mini_block_chain.Prelude.{
  ℕ, ◌+◌, ◌-◌, ◌≤◌, ◌<◌, ◌≡◌, refl, ite, some, [], ◌∷◌, ◌++◌, arith, u64_mod, checked_add,
  checked_sub,
}
use mini_block_chain.Bytes.{Bytes, bytes_discrete}
use mini_block_chain.External.{Json, Key, Crypto}
use mini_block_chain.Merkle.{Account, MerkleTree, find_account, get_account_balance, get_nonce}
use mini_block_chain.Merkle.Accounts.{IsConsistent}
use mini_block_chain.Chain.{Block, BlockChain, request_address, set_block_hash, store_then_push}
use mini_block_chain.Chain.Push.{store_then_push_total}
use mini_block_chain.Node.{ValidatorNode, done}
use mini_block_chain.Node.Request.{str_field, amount_field}
use mini_block_chain.Ledger.Transfer.{add_transaction_to_ledger}
use mini_block_chain.Ledger.Balances.{
  moved, tokens, move_balances_lem, moved-IsConsistent, get_nonce-moved, get_account_balance-moved,
  tokens-moved,
}

module _ {Value : Type 0} (x : Json Value) (c : Crypto) where
  -- What a request asks for, on a node where both accounts are known and the numbers fit.
  pub record IsPayable (r : Value) (n : ValidatorNode) (old_s old_r : ℕ) (account : Account)
      : Type 0 where
    pub consistent : IsConsistent n.merkle_tree
    pub sender_balance :
        get_account_balance (str_field x Key.sender_public_key r) n.merkle_tree ≡ some old_s
    pub recipient_balance :
        get_account_balance (str_field x Key.recipient_public_key r) n.merkle_tree ≡ some old_r
    pub sender_account :
        find_account (str_field x Key.sender_public_key r) n.merkle_tree.accounts_vec ≡ some account
    pub covered : amount_field x r ≤ old_s
    pub fits : old_r + amount_field x r < u64_mod
    pub countable : account.nonce + 1 < u64_mod

  module _ (r : Value) (time : ℕ) (n : ValidatorNode) (old_s old_r : ℕ) (a : Account)
      (p : IsPayable r n old_s old_r a) where
    abbrev sender : Bytes
    sender = str_field x Key.sender_public_key r

    abbrev recipient : Bytes
    recipient = str_field x Key.recipient_public_key r

    abbrev amount : ℕ
    amount = amount_field x r

    -- The block of the transfer, as it is handed to the chain.
    abbrev block : Block
    block =
        Block.transaction sender (old_s - amount) recipient (old_r + amount) amount time a.nonce []

    nonce_found : get_nonce sender n.merkle_tree ≡ some a.nonce
    unfolding get_nonce
    nonce_found = rw (p.sender_account, get_nonce)

    subtracted : checked_sub old_s amount ≡ some (old_s - amount)
    unfolding checked_sub
    subtracted = ground (arith, p.covered)

    added : checked_add old_r amount ≡ some (old_r + amount)
    unfolding checked_add
    added = ground (arith, p.fits)

    abbrev new_tree : MerkleTree
    new_tree = moved sender (old_s - amount) a.nonce recipient (old_r + amount) n.merkle_tree

    runs :
        (b : BlockChain)
        → store_then_push c.sha256 block n.blockchain ≡ some b
        → add_transaction_to_ledger x c r time n
          ≡ (done tt, record n { merkle_tree = new_tree; blockchain = b })
    unfolding add_transaction_to_ledger
    runs b e = ground (
      arith,
      p.sender_balance,
      p.recipient_balance,
      nonce_found,
      subtracted,
      added,
      move_balances_lem sender (old_s - amount) recipient (old_r + amount) n a p.sender_account
          p.countable,
      e,
    )

    -- An agreed transfer between known accounts in consistent stores, which the sender's balance
    -- covers and where the recipient's balance and the sender's nonce stay within u64: it ends;
    -- the recipient's balance is its old one and the amount, the sender's (if another) is its old
    -- one less the amount, and no other changes; the sender's nonce is counted up and no other;
    -- the stores stay in step; the chain grows by the block of the transfer; and the rest of the
    -- node is as it was.
    pub add_transaction_to_ledger_lem :
        (n' : ValidatorNode) × (add_transaction_to_ledger x c r time n ≡ (done tt, n'))
        × IsConsistent n'.merkle_tree
        × ((k : Bytes)
            → (get_account_balance k n'.merkle_tree
                ≡ ite (bytes_discrete recipient k) (some (old_r + amount)) (
                    ite
                      (bytes_discrete sender k)
                      (some (old_s - amount))
                      (get_account_balance k n.merkle_tree)))
              × (get_nonce k n'.merkle_tree
                  ≡ ite (bytes_discrete sender k) (some (a.nonce + 1)) (get_nonce k n.merkle_tree)))
        × (n'.blockchain.chain ≡ n.blockchain.chain ++ set_block_hash c.sha256 block ∷ [])
        × (n' ≡ record n { merkle_tree = n'.merkle_tree; blockchain = n'.blockchain })
    unfolding request_address
    add_transaction_to_ledger_lem =
        let (b, e, grown) =
          store_then_push_total c.sha256 block n.blockchain {address = sender} refl in
        (
          record n { merkle_tree = new_tree; blockchain = b },
          runs b e,
          moved-IsConsistent sender (old_s - amount) recipient (old_r + amount) n.merkle_tree a
              p.consistent p.sender_account p.countable,
          (λ k. (
            get_account_balance-moved sender k (old_s - amount) a.nonce recipient (old_r + amount)
                old_s old_r n.merkle_tree p.sender_balance p.recipient_balance,
            get_nonce-moved sender k (old_s - amount) recipient (old_r + amount) n.merkle_tree a
                p.sender_account,
          )),
          grown,
          refl,
        )

    -- What an agreed transfer under the same conditions does to the tokens of all accounts:
    -- nothing if it is between two accounts; and if it is from an account to itself, it makes as
    -- many as were asked for.
    pub tokens-add_transaction_to_ledger :
        tokens (add_transaction_to_ledger x c r time n).1.merkle_tree
        ≡ tokens n.merkle_tree + ite (bytes_discrete sender recipient) amount 0
    unfolding request_address
    tokens-add_transaction_to_ledger =
        let (b, e, _) = store_then_push_total c.sha256 block n.blockchain {address = sender} refl in
        rw (runs b e) (
          ground (
            arith,
            tokens-moved sender (old_s - amount) a.nonce recipient (old_r + amount) old_s old_r
                n.merkle_tree p.sender_balance p.recipient_balance,
            p.covered,
            p.sender_balance,
            p.recipient_balance,
          ))
