-- ===== src/Merkle/Accounts.antt =====
-- src/modules/merkle_tree.rs: the vector and the map of the accounts, side by side.
use mini_block_chain.Prelude.{
  ℕ, ◌+◌, ◌≡◌, refl, inl, inr, ite, false, Option, none, some, List, [], ◌∷◌, ◌++◌, arith,
  if◌then◌else◌, Option-cases, checked_add,
}
use mini_block_chain.Bytes.{Bytes, bytes_discrete}
use mini_block_chain.HashMap.{get, IsUnique}
use mini_block_chain.HashMap.Laws.{get-insert, insert-IsUnique}
use mini_block_chain.Merkle.{
  Account, MerkleTree, new, find_account, update_account, insert_account, get_account_balance,
  account_exists, set_balance, set_nonce, change_balance, increment_nonce,
}

abbrev pub balance_of : Option Account → Option ℕ
balance_of none = none
balance_of (some a) = some a.balance

-- No key stands twice in the vector, and the map gives the balance that the vector has.
pub record IsConsistent (t : MerkleTree) : Type 0 where
  pub agrees :
      (k : Bytes) → get bytes_discrete k t.accounts_map ≡ balance_of (find_account k t.accounts_vec)
  pub unique : IsUnique bytes_discrete t.accounts_map

pub find-append :
    (k : Bytes) (xs : List Account) (a : Account)
    → find_account k (xs ++ a ∷ []) ≡ elim (find_account k xs) [
      | none ↦ ite (bytes_discrete a.public_key k) (some a) none
      | some x ↦ some x
    ]
unfolding find_account
find-append k [] a = refl
find-append k (x ∷ xs) a = ground (arith, find-append k xs a)

pub find-update :
    (k j : Bytes) (f : Account → Account) (xs : List Account)
    → ((a : Account) → (f a).public_key ≡ a.public_key)
    → find_account j (update_account k f xs)
      ≡ elim (find_account j xs) [ none ↦ none | some x ↦ some (ite (bytes_discrete k j) (f x) x) ]
unfolding find_account update_account
find-update k j f [] h = refl
find-update k j f (x ∷ xs) h = ground (arith, h x, find-update k j f xs h)

-- Inserting an account under a key not known keeps consistent stores in step.
pub insert_account-IsConsistent :
    (a : Account) (t : MerkleTree)
    → IsConsistent t
    → account_exists a.public_key t ≡ false
    → IsConsistent (insert_account a t)
unfolding insert_account account_exists
insert_account-IsConsistent a t c h = record {
  agrees = λ k. ground (
    arith,
    c.agrees k,
    get-insert bytes_discrete a.public_key k a.balance t.accounts_map,
    find-append k t.accounts_vec a,
  );
  unique = insert-IsUnique bytes_discrete a.public_key a.balance t.accounts_map c.unique;
}

-- A change of a balance keeps consistent stores in step, whether the key exists or not.
pub change_balance-IsConsistent :
    (k : Bytes) (b : ℕ) (t : MerkleTree) → IsConsistent t → IsConsistent (change_balance k b t)
unfolding change_balance
change_balance-IsConsistent k b t c = record {
  agrees = λ j. ground (
    arith,
    c.agrees j,
    c.agrees k,
    get-insert bytes_discrete k j b t.accounts_map,
    find-update k j (set_balance b) t.accounts_vec (λ a. refl),
  );
  unique = grind (arith, c.unique, insert-IsUnique);
}

nonce_balances :
    (k j : Bytes) (n : ℕ) (xs : List Account)
    → balance_of (find_account j (update_account k (set_nonce n) xs))
      ≡ balance_of (find_account j xs)
nonce_balances k j n xs = ground (arith, find-update k j (set_nonce n) xs (λ a. refl))

-- Counting a transaction leaves every balance alone, in both stores.
pub increment_nonce_balances :
    (k j : Bytes) (t t' : MerkleTree)
    → increment_nonce k t ≡ some t'
    → (t'.accounts_map ≡ t.accounts_map)
      × (balance_of (find_account j t'.accounts_vec) ≡ balance_of (find_account j t.accounts_vec))
unfolding increment_nonce checked_add
increment_nonce_balances k j t t' e = elim (Option-cases (find_account k t.accounts_vec)) [
  | inl q ↦ ground (arith, q)
  | inr (a, q) ↦ ground (arith, q, nonce_balances k j (a.nonce + 1) t.accounts_vec)
]

-- Counting up the nonce of an account, where it does not panic, keeps consistent stores in step.
pub increment_nonce-IsConsistent :
    (k : Bytes) (t t' : MerkleTree)
    → IsConsistent t
    → increment_nonce k t ≡ some t'
    → IsConsistent t'
increment_nonce-IsConsistent k t t' c e = record {
  agrees = λ j. ground (arith, c.agrees j, increment_nonce_balances k j t t' e);
  unique = ground (arith, c.unique, increment_nonce_balances k k t t' e);
}

-- After a change of a balance the balance at each key is the new one at the changed key, if that
-- is known, and else what it was; and the keys known are the same.
pub get_account_balance-change_balance :
    (k j : Bytes) (b : ℕ) (t : MerkleTree)
    → (get_account_balance j (change_balance k b t) ≡ (
        if account_exists k t
        then ite (bytes_discrete k j) (some b) (get_account_balance j t)
        else get_account_balance j t))
      × (account_exists j (change_balance k b t) ≡ account_exists j t)
unfolding get_account_balance change_balance account_exists
get_account_balance-change_balance k j b t = (
  ground (arith, get-insert bytes_discrete k j b t.accounts_map),
  ground (arith, get-insert bytes_discrete k j b t.accounts_map),
)

-- In consistent stores, an account that is inserted under a key already known is found in the map
-- and hidden in the vector: the balance that the map gives is the new one, and the account that
-- the vector gives is the old one.
pub insert_account_again :
    (a old : Account) (t : MerkleTree)
    → IsConsistent t
    → find_account a.public_key t.accounts_vec ≡ some old
    → (get_account_balance a.public_key (insert_account a t) ≡ some a.balance)
      × (find_account a.public_key (insert_account a t).accounts_vec ≡ some old)
unfolding insert_account get_account_balance
insert_account_again a old t c e = (
  ground (arith, get-insert bytes_discrete a.public_key a.public_key a.balance t.accounts_map),
  ground (arith, find-append a.public_key t.accounts_vec a),
)

pub new-IsConsistent : IsConsistent new
unfolding get find_account
new-IsConsistent = record { agrees = λ k. refl; unique = tt }
