-- ===== src/Merkle.antt =====
-- src/modules/merkle_tree.rs: the accounts, kept twice (a vector, and a map from key to balance),
-- and the hash tree over the vector, which is in `Root`.
pub mod Accounts
pub mod Root
pub mod Commit
mod Tests
use mini_block_chain.Prelude.{
  ℕ, zero, suc, ◌+◌, ◌-◌, ◌*◌, ◌/◌, ◌%◌, ◌^◌, ◌≤◌, ◌<◌, ◌≡◌, refl, sym, ap, ◌∙◌, ◌≢◌, ◌↔◌, ◌⊎◌, inl,
  inr, ite, if_pos, if_neg, Bool, true, false, ◌&&◌, ◌||◌, not, Option, none, some, List, [], ◌∷◌,
  ◌++◌, map, arith, dec_lt, dec_le, ℕ_discrete, ltb, leb, ◌==◌, if◌then◌else◌, Bool-cases,
  Option-cases, length, length-append, length-map, sum, sum-append, All, All-map, count, retain_ne,
  count-append, count-retain_ne, sum_of_count-eq, u64_mod, u32_mod, checked_add, checked_sub,
  sum_u64, in_u64, sum_u64_lem,
}
use mini_block_chain.Bytes.{Bytes, bytes_discrete}
use mini_block_chain.HashMap.{HashMap, get, contains_key, insert, modify}

pub record Account : Type 0 where
  pub public_key : Bytes
  pub public_key_hash : Bytes
  pub balance : ℕ
  pub nonce : ℕ

pub data MerkleNode : Type 0 where
  leaf : (hash : Bytes) → MerkleNode
  branch : (hash : Bytes) → MerkleNode → MerkleNode → MerkleNode

pub record MerkleTree : Type 0 where
  pub root : Option MerkleNode
  pub accounts_vec : List Account
  pub accounts_map : HashMap Bytes ℕ

abbrev pub new : MerkleTree
new = record { root = none; accounts_vec = []; accounts_map = [] }

-- `accounts_vec.iter().find(|account| account.public_key == public_key)`
unfoldable pub find_account : Bytes → List Account → Option Account
find_account k [] = none
find_account k (a ∷ as') = ite (bytes_discrete a.public_key k) (some a) (find_account k as')

-- An assignment to the account that `iter_mut().find(…)` finds, if it finds one.
unfoldable pub update_account : Bytes → (Account → Account) → List Account → List Account
update_account k f [] = []
update_account k f (a ∷ as') =
    ite (bytes_discrete a.public_key k) (f a ∷ as') (a ∷ update_account k f as')

unfoldable pub insert_account : Account → MerkleTree → MerkleTree
insert_account a t = record t {
  accounts_vec = t.accounts_vec ++ a ∷ [];
  accounts_map = insert bytes_discrete a.public_key a.balance t.accounts_map;
}

unfoldable pub get_account_balance : Bytes → MerkleTree → Option ℕ
get_account_balance k t = get bytes_discrete k t.accounts_map

unfoldable pub get_public_key_hash : Bytes → MerkleTree → Option Bytes
get_public_key_hash k t = elim (find_account k t.accounts_vec) [
  | none ↦ none
  | some a ↦ some a.public_key_hash
]

unfoldable pub get_nonce : Bytes → MerkleTree → Option ℕ
get_nonce k t = elim (find_account k t.accounts_vec) [ none ↦ none | some a ↦ some a.nonce ]

unfoldable pub account_exists : Bytes → MerkleTree → Bool
account_exists k t = contains_key bytes_discrete k t.accounts_map

abbrev pub set_balance : ℕ → Account → Account
set_balance b a = record a { balance = b }

unfoldable pub change_balance : Bytes → ℕ → MerkleTree → MerkleTree
change_balance k b t = record t {
  accounts_map = modify bytes_discrete k (λ _. b) t.accounts_map;
  accounts_vec = update_account k (set_balance b) t.accounts_vec;
}

abbrev pub set_nonce : ℕ → Account → Account
set_nonce n a = record a { nonce = n }

-- `none` is the panic of `nonce += 1` at the largest u64.
unfoldable pub increment_nonce : Bytes → MerkleTree → Option MerkleTree
increment_nonce k t = elim (find_account k t.accounts_vec) [
  | none ↦ some t
  | some a ↦ elim (checked_add a.nonce 1) [
    | none ↦ none
    | some n ↦ some (record t { accounts_vec = update_account k (set_nonce n) t.accounts_vec })
  ]
]
