-- ===== src/System/Stable.antt =====
-- src/modules/validation.rs: the writes that the handlers make, one by one, as an interface. What each
-- write keeps, each stage keeps, and each step of the system.
use mini_block_chain.Prelude.{
  ℕ, ◌≡◌, inl, inr, Bool, some, List, [], Option-cases, checked_add, checked_sub,
}
use mini_block_chain.Bytes.{Bytes, Text}
use mini_block_chain.HashMap.{HashMap}
use mini_block_chain.External.{Json, Key, Crypto}
use mini_block_chain.Utxo.{UtxoTransaction}
use mini_block_chain.Utxo.Apply.{apply_transaction}
use mini_block_chain.Merkle.{
  Account, MerkleTree, insert_account, change_balance, increment_nonce, get_account_balance,
  get_nonce,
}
use mini_block_chain.Chain.{Block, BlockChain, push_block_to_chain, store_then_push}
use mini_block_chain.Signature.{verify_transaction_signature}
use mini_block_chain.Node.{
  PeerLedgerResponse, ValidatorNode, Outcome, done, panicked, waiting, Action, ◌>>=◌, set_tree,
  set_chain, write_block,
}
use mini_block_chain.Node.Request.{str_field, amount_field}
use mini_block_chain.Ledger.{faucet_amount}
use mini_block_chain.Ledger.Accounts.{
  fresh_account, add_account_creation_to_ledger, add_faucet_request_to_ledger,
}
use mini_block_chain.Ledger.Transfer.{move_balances, add_transaction_to_ledger}
use mini_block_chain.Heartbeat.{retain_recent, record_heartbeat}

-- A predicate on nodes that every write keeps.
pub record IsStable (c : Crypto) (P : ValidatorNode → Type 0) : Type 0 where
  pub inserts :
      (a : Account) (n : ValidatorNode) → P n → P (set_tree (insert_account a n.merkle_tree) n)
  pub changes :
      (k : Bytes) (b : ℕ) (n : ValidatorNode)
      → P n
      → P (set_tree (change_balance k b n.merkle_tree) n)
  pub counts :
      (k : Bytes) (t : MerkleTree) (n : ValidatorNode)
      → increment_nonce k n.merkle_tree ≡ some t
      → P n
      → P (set_tree t n)
  pub stores :
      (b : Block) (chain : BlockChain) (n : ValidatorNode)
      → store_then_push c.sha256 b n.blockchain ≡ some chain
      → P n
      → P (set_chain chain n)
  pub pushes :
      (b : Block) (chain : BlockChain) (n : ValidatorNode)
      → push_block_to_chain c.sha256 b n.blockchain ≡ some chain
      → P n
      → P (set_chain chain n)
  pub spends :
      (tx : UtxoTransaction) (height : ℕ) (n : ValidatorNode)
      → P n
      → P (record n { utxo_set = (apply_transaction tx height n.utxo_set).0 })
  pub signs :
      (signature sender recipient amount : Text) (nonce : ℕ) (n : ValidatorNode)
      → P n
      → P (record n {
        used_zk_proofs =
            (verify_transaction_signature c signature sender recipient amount nonce
              n.used_zk_proofs).1;
      })
  pub decides :
      (d : HashMap Bytes Bool) (n : ValidatorNode) → P n → P (record n { client_decisions = d })
  pub votes :
      (d : HashMap Bytes (ℕ × ℕ)) (n : ValidatorNode) → P n → P (record n { peer_decisions = d })
  pub totals : (k : ℕ) (n : ValidatorNode) → P n → P (record n { total_peers = k })
  pub hears :
      (port : Text) (now : ℕ) (n : ValidatorNode)
      → P n
      → P (record n {
        active_peers = (retain_recent now (record_heartbeat port now n.active_peers)).1;
      })
  pub learns :
      (ss : List PeerLedgerResponse) (n : ValidatorNode)
      → P n
      → P (record n { peer_ledger_states = ss })

pub bind_keeps :
    {A B : Type 0} (P : ValidatorNode → Type 0) (m : Action A) (f : A → Action B)
    (n : ValidatorNode)
    → P (m n).1
    → ((a : A) (n' : ValidatorNode) → P n' → P (f a n').1)
    → P ((m >>= f) n).1
bind_keeps {A} P m f n h k = go (m n) h
  where
    go : (q : Outcome A × ValidatorNode) → P q.1 → P (((λ _. q) >>= f) n).1
    go (done a, n') h' = k a n' h'
    go (panicked, n') h' = h'
    go (waiting, n') h' = h'

module _ {Value : Type 0} (x : Json Value) (c : Crypto) (P : ValidatorNode → Type 0)
    (stable : IsStable c P) where
  write_block_keeps : (b : Block) (n : ValidatorNode) → P n → P (write_block c.sha256 b n).1
  write_block_keeps b n h = elim (Option-cases (store_then_push c.sha256 b n.blockchain)) [
    | inl e ↦ rw (e, write_block) h
    | inr (chain, e) ↦ rw (e, write_block) (stable.stores b chain n e h)
  ]

  pub creation_keeps :
      (r : Value) (time : ℕ) (n : ValidatorNode)
      → P n
      → P (add_account_creation_to_ledger x c r time n).1
  unfolding add_account_creation_to_ledger
  creation_keeps r time n h =
      let key : Bytes = str_field x Key.public_key r in
      elim (Option-cases (c.hex_decode (str_field x Key.public_key_hash r))) [
        | inl e ↦ rw (e, add_account_creation_to_ledger) h
        | inr (key_hash, e) ↦
            rw (e, add_account_creation_to_ledger)
              (write_block_keeps (Block.new_account key 0 time [])
                (set_tree (insert_account (fresh_account key key_hash) n.merkle_tree) n)
                (stable.inserts (fresh_account key key_hash) n h))
      ]

  pub faucet_keeps :
      (r : Value) (time : ℕ) (n : ValidatorNode)
      → P n
      → P (add_faucet_request_to_ledger x c r time n).1
  unfolding add_faucet_request_to_ledger
  faucet_keeps r time n h =
      let key : Bytes = str_field x Key.public_key r in
      elim (Option-cases (get_account_balance key n.merkle_tree)) [
        | inl e ↦ rw (e, add_faucet_request_to_ledger) h
        | inr (b, e) ↦ elim (Option-cases (checked_add b faucet_amount)) [
          | inl q ↦ rw (e, add_faucet_request_to_ledger, q) h
          | inr (b', q) ↦
              rw (e, add_faucet_request_to_ledger, q)
                (write_block_keeps (Block.faucet key b' time [])
                  (set_tree (change_balance key b' n.merkle_tree) n) (stable.changes key b' n h))
        ]
      ]

  move_keeps :
      (s : Bytes) (sb : ℕ) (r : Bytes) (rb : ℕ) (n : ValidatorNode)
      → P n
      → P (move_balances s sb r rb n).1
  unfolding move_balances
  move_keeps s sb r rb n h =
      elim (Option-cases (increment_nonce s (change_balance s sb n.merkle_tree))) [
        | inl e ↦ rw (e, move_balances) (stable.changes s sb n h)
        | inr (t, e) ↦
            rw (e, move_balances)
              (stable.changes r rb (set_tree t n) (
                stable.counts s t (set_tree (change_balance s sb n.merkle_tree) n) e
                  (stable.changes s sb n h)))
      ]

  pub transfer_keeps :
      (r : Value) (time : ℕ) (n : ValidatorNode)
      → P n
      → P (add_transaction_to_ledger x c r time n).1
  unfolding add_transaction_to_ledger
  transfer_keeps r time n h =
      let s : Bytes = str_field x Key.sender_public_key r in
      let q : Bytes = str_field x Key.recipient_public_key r in
      let a : ℕ = amount_field x r in
      elim (Option-cases (get_account_balance s n.merkle_tree)) [
        | inl e ↦ rw (e, add_transaction_to_ledger) h
        | inr (b, e) ↦ elim (Option-cases (get_account_balance q n.merkle_tree)) [
          | inl e' ↦ rw (e, add_transaction_to_ledger, e') h
          | inr (b', e') ↦ elim (Option-cases (get_nonce s n.merkle_tree)) [
            | inl f ↦ rw (e, add_transaction_to_ledger, e', f) h
            | inr (nonce, f) ↦ elim (Option-cases (checked_sub b a)) [
              | inl g ↦ rw (e, add_transaction_to_ledger, e', f, g) h
              | inr (sb, g) ↦ elim (Option-cases (checked_add b' a)) [
                | inl g' ↦ rw (e, add_transaction_to_ledger, e', f, g, g') h
                | inr (rb, g') ↦
                    rw (e, add_transaction_to_ledger, e', f, g, g')
                      (bind_keeps P (move_balances s sb q rb)
                        (λ _. write_block c.sha256 (Block.transaction s sb q rb a time nonce [])) n
                        (move_keeps s sb q rb n h)
                        (λ _ n' h'.
                          write_block_keeps (Block.transaction s sb q rb a time nonce []) n' h'))
              ]
            ]
          ]
        ]
      ]
