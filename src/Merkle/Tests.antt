-- ===== src/Merkle/Tests.antt =====
-- Examples of the accounts and of the hash tree: a tree with one account, and a second account.
use mini_block_chain.Prelude.{
  ℕ, zero, suc, ◌≡◌, refl, ◌⊎◌, false, none, some, [], ◌∷◌, map, ℕ_discrete, length, checked_add,
}
use mini_block_chain.Bytes.{Bytes, bytes_discrete}
use mini_block_chain.HashMap.{get, insert}
use mini_block_chain.Merkle.{
  Account, MerkleTree, MerkleNode, new, find_account, insert_account, change_balance,
  increment_nonce, get_account_balance, account_exists, update_account,
}
use mini_block_chain.Merkle.Accounts.{
  IsConsistent, new-IsConsistent, insert_account-IsConsistent, insert_account_again,
}
use mini_block_chain.Merkle.Root.{
  account_bytes, reduce, leaves, generate_merkle_root, generate_merkle_root_total,
}
use mini_block_chain.Merkle.Commit.{Collision, generate_merkle_root_binds}

program : Unit {0}
unfolding bytes_discrete get insert find_account insert_account change_balance increment_nonce
    get_account_balance account_exists update_account checked_add ℕ_discrete
program = tt

abbrev alice : Account
alice = record { public_key = 1 ∷ []; public_key_hash = 7 ∷ []; balance = 30; nonce = 0 }

abbrev bob : Account
bob = record { public_key = 2 ∷ []; public_key_hash = 8 ∷ []; balance = 5; nonce = 3 }

-- A second registration of the key of alice.
abbrev alice_again : Account
alice_again = record alice { balance = 90 }

abbrev one : MerkleTree
one = insert_account alice new

one-IsConsistent : IsConsistent one
unfolding program
one-IsConsistent = insert_account-IsConsistent alice new new-IsConsistent refl

bob_unknown : account_exists bob.public_key one ≡ false
unfolding program
bob_unknown = refl

alice_found : find_account alice.public_key one.accounts_vec ≡ some alice
unfolding program
alice_found = refl

abbrev counted : MerkleTree
counted = record one { accounts_vec = record alice { nonce = 1 } ∷ [] }

alice_counted : increment_nonce alice.public_key one ≡ some counted
unfolding program
alice_counted = refl

insert_account_again_example :
    (get_account_balance (1 ∷ []) (insert_account alice_again one) ≡ some 90)
    × (find_account (1 ∷ []) (insert_account alice_again one).accounts_vec ≡ some alice)
insert_account_again_example =
    insert_account_again alice_again alice one one-IsConsistent alice_found

-- A hash of 32 bytes: as many zeros.
abbrev zeros : ℕ → Bytes
zeros zero = []
zeros (suc n) = 0 ∷ zeros n

abbrev constant : Bytes → Bytes
constant _ = zeros 32

constant_size : (x : Bytes) → length (constant x) ≡ 32
constant_size x = refl

generate_merkle_root_total_example :
    (((insert_account bob one).accounts_vec ≡ [])
      × ((generate_merkle_root constant (insert_account bob one)).root ≡ none))
    ⊎ ((n : MerkleNode) × (reduce constant
            (length (insert_account bob one).accounts_vec)
            (leaves constant (insert_account bob one).accounts_vec)
          ≡ n ∷ [])
        × ((generate_merkle_root constant (insert_account bob one)).root ≡ some n))
generate_merkle_root_total_example = generate_merkle_root_total constant (insert_account bob one)

generate_merkle_root_binds_example :
    (map account_bytes one.accounts_vec ≡ map account_bytes one.accounts_vec) ⊎ Collision constant
generate_merkle_root_binds_example =
    generate_merkle_root_binds constant constant_size one one refl refl
