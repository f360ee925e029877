-- ===== src/Ledger/Balances.antt =====
-- src/modules/validation.rs, `add_transaction_to_ledger`: its writes to the accounts.
use mini_block_chain.Prelude.{ℕ, ◌+◌, ◌<◌, ◌≡◌, refl, ite, some, arith, u64_mod, checked_add}
use mini_block_chain.Bytes.{Bytes, bytes_discrete}
use mini_block_chain.HashMap.{insert}
use mini_block_chain.HashMap.Laws.{get-insert}
use mini_block_chain.HashMap.Sizes.{total, total-insert}
use mini_block_chain.Merkle.{
  Account, MerkleTree, find_account, update_account, get_account_balance, get_nonce, change_balance,
  increment_nonce, set_balance, set_nonce,
}
use mini_block_chain.Merkle.Accounts.{
  IsConsistent, find-update, change_balance-IsConsistent, increment_nonce-IsConsistent,
}
use mini_block_chain.Node.{ValidatorNode, done, set_tree}
use mini_block_chain.Ledger.Transfer.{move_balances}

-- The tree after the three writes, at the nonce that the sender had.
abbrev pub moved : Bytes → ℕ → ℕ → Bytes → ℕ → MerkleTree → MerkleTree
moved sender sender_balance nonce recipient recipient_balance t =
    change_balance recipient recipient_balance (record (change_balance sender sender_balance t) {
      accounts_vec =
          update_account sender (set_nonce (nonce + 1))
            (change_balance sender sender_balance t).accounts_vec;
    })

counted :
    (k : Bytes) (b : ℕ) (t : MerkleTree) (a : Account)
    → find_account k t.accounts_vec ≡ some a
    → a.nonce + 1 < u64_mod
    → increment_nonce k (change_balance k b t)
      ≡ some (record (change_balance k b t) {
        accounts_vec =
            update_account k (set_nonce (a.nonce + 1)) (change_balance k b t).accounts_vec;
      })
unfolding increment_nonce change_balance checked_add
counted k b t a e small =
    ground (arith, e, find-update k k (set_balance b) t.accounts_vec (λ a. refl))

pub move_balances_lem :
    (s : Bytes) (bs : ℕ) (r : Bytes) (br : ℕ) (n : ValidatorNode) (a : Account)
    → find_account s n.merkle_tree.accounts_vec ≡ some a
    → a.nonce + 1 < u64_mod
    → move_balances s bs r br n ≡ (done tt, set_tree (moved s bs a.nonce r br n.merkle_tree) n)
unfolding move_balances
move_balances_lem s bs r br n a e small = rw (counted s bs n.merkle_tree a e small)

-- The intermediate tree, after the sender's balance and nonce are written.
abbrev pub debited : Bytes → ℕ → ℕ → MerkleTree → MerkleTree
debited s bs nonce t = record (change_balance s bs t) {
  accounts_vec = update_account s (set_nonce (nonce + 1)) (change_balance s bs t).accounts_vec;
}

debited-IsConsistent :
    (s : Bytes) (bs : ℕ) (t : MerkleTree) (a : Account)
    → IsConsistent t
    → find_account s t.accounts_vec ≡ some a
    → a.nonce + 1 < u64_mod
    → IsConsistent (debited s bs a.nonce t)
debited-IsConsistent s bs t a c e small =
    increment_nonce-IsConsistent s (change_balance s bs t) (debited s bs a.nonce t)
      (change_balance-IsConsistent s bs t c) (counted s bs t a e small)

pub moved-IsConsistent :
    (s : Bytes) (bs : ℕ) (r : Bytes) (br : ℕ) (t : MerkleTree) (a : Account)
    → IsConsistent t
    → find_account s t.accounts_vec ≡ some a
    → a.nonce + 1 < u64_mod
    → IsConsistent (moved s bs a.nonce r br t)
moved-IsConsistent s bs r br t a c e small =
    change_balance-IsConsistent r br (debited s bs a.nonce t)
      (debited-IsConsistent s bs t a c e small)

-- The nonces do not change with the balances.
pub get_nonce-moved :
    (s k : Bytes) (bs : ℕ) (r : Bytes) (br : ℕ) (t : MerkleTree) (a : Account)
    → find_account s t.accounts_vec ≡ some a
    → get_nonce k (moved s bs a.nonce r br t)
      ≡ ite (bytes_discrete s k) (some (a.nonce + 1)) (get_nonce k t)
unfolding get_nonce change_balance
get_nonce-moved s k bs r br t a e = ground (
  arith,
  e,
  find-update s k (set_balance bs) t.accounts_vec (λ x. refl),
  find-update s k (set_nonce (a.nonce + 1)) (update_account s (set_balance bs) t.accounts_vec)
      (λ x. refl),
  find-update r k (set_balance br)
      (update_account s (set_nonce (a.nonce + 1))
        (update_account s (set_balance bs) t.accounts_vec))
      (λ x. refl),
)

pub get_account_balance-moved :
    (s k : Bytes) (bs nonce : ℕ) (r : Bytes) (br old_s old_r : ℕ) (t : MerkleTree)
    → get_account_balance s t ≡ some old_s
    → get_account_balance r t ≡ some old_r
    → get_account_balance k (moved s bs nonce r br t)
      ≡ ite
          (bytes_discrete r k)
          (some br)
          (ite (bytes_discrete s k) (some bs) (get_account_balance k t))
unfolding get_account_balance change_balance
get_account_balance-moved s k bs nonce r br old_s old_r t es er = ground (
  arith,
  es,
  er,
  get-insert bytes_discrete s k bs t.accounts_map,
  get-insert bytes_discrete s r bs t.accounts_map,
  get-insert bytes_discrete r k br (insert bytes_discrete s bs t.accounts_map),
)

-- All the tokens in the accounts.
unfoldable pub tokens : MerkleTree → ℕ
tokens t = total (λ b. b) t.accounts_map

pub tokens-change_balance :
    (k : Bytes) (b old : ℕ) (t : MerkleTree)
    → get_account_balance k t ≡ some old
    → tokens (change_balance k b t) + old ≡ tokens t + b
unfolding tokens change_balance get_account_balance
tokens-change_balance k b old t e =
    ground (arith, e, total-insert bytes_discrete (λ (b : ℕ). b) k b t.accounts_map)

tokens-debited :
    (s : Bytes) (bs nonce : ℕ) (t : MerkleTree)
    → tokens (debited s bs nonce t) ≡ tokens (change_balance s bs t)
unfolding tokens
tokens-debited s bs nonce t = refl

balance_debited :
    (s : Bytes) (bs nonce : ℕ) (r : Bytes) (old_s old_r : ℕ) (t : MerkleTree)
    → get_account_balance s t ≡ some old_s
    → get_account_balance r t ≡ some old_r
    → get_account_balance r (debited s bs nonce t) ≡ some (ite (bytes_discrete s r) bs old_r)
unfolding get_account_balance change_balance
balance_debited s bs nonce r old_s old_r t es er =
    ground (arith, es, er, get-insert bytes_discrete s r bs t.accounts_map)

pub tokens-moved :
    (s : Bytes) (bs nonce : ℕ) (r : Bytes) (br old_s old_r : ℕ) (t : MerkleTree)
    → get_account_balance s t ≡ some old_s
    → get_account_balance r t ≡ some old_r
    → tokens (moved s bs nonce r br t) + old_s + ite (bytes_discrete s r) bs old_r
      ≡ tokens t + bs + br
tokens-moved s bs nonce r br old_s old_r t es er = omega (
  arith,
  tokens-change_balance s bs old_s t es,
  tokens-debited s bs nonce t,
  tokens-change_balance r br (ite (bytes_discrete s r) bs old_r) (debited s bs nonce t)
      (balance_debited s bs nonce r old_s old_r t es er),
)
