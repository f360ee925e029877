-- ===== src/Merkle/Root.antt =====
-- src/modules/merkle_tree.rs: `generate_merkle_root` and its helpers. SHA-256 is a parameter.
use mini_block_chain.Prelude.{
  ℕ, zero, suc, ◌+◌, ◌*◌, ◌≤◌, ◌<◌, ◌≡◌, refl, ◌⊎◌, inl, inr, Option, none, some, List, [], ◌∷◌,
  ◌++◌, map, arith, length, length-map,
}
use mini_block_chain.Bytes.{Bytes, be_bytes}
use mini_block_chain.Merkle.{Account, MerkleNode, MerkleTree}

unfoldable pub extract_hash : MerkleNode → Bytes
extract_hash (MerkleNode.leaf hash) = hash
extract_hash (MerkleNode.branch hash l r) = hash

-- What the hasher is fed for an account.
unfoldable pub account_bytes : Account → Bytes
account_bytes a =
    a.public_key ++ (be_bytes 8 a.balance ++ (be_bytes 8 a.nonce ++ a.public_key_hash))

module _ (sha256 : Bytes → Bytes) where
  unfoldable pub hash_account : Account → Bytes
  hash_account a = sha256 (account_bytes a)

  unfoldable pub pair_and_hash : MerkleNode → MerkleNode → MerkleNode
  pair_and_hash l r = MerkleNode.branch (sha256 (extract_hash l ++ extract_hash r)) l r

  -- One round of the loop: chunks of two, the last one paired with itself if it is alone.
  unfoldable pub pair_chunks : List MerkleNode → List MerkleNode
  pair_chunks [] = []
  pair_chunks (x ∷ []) = pair_and_hash x x ∷ []
  pair_chunks (x ∷ y ∷ rest) = pair_and_hash x y ∷ pair_chunks rest

  -- `while nodes.len() > 1`; the fuel bounds the rounds.
  unfoldable pub reduce : ℕ → List MerkleNode → List MerkleNode
  reduce zero nodes = nodes
  reduce (suc fuel) [] = []
  reduce (suc fuel) (x ∷ []) = x ∷ []
  reduce (suc fuel) (x ∷ y ∷ rest) = reduce fuel (pair_chunks (x ∷ y ∷ rest))

  abbrev pub first_node : List MerkleNode → Option MerkleNode
  first_node [] = none
  first_node (x ∷ xs) = some x

  abbrev pub leaves : List Account → List MerkleNode
  leaves = map (λ a. MerkleNode.leaf (hash_account a))

  unfoldable pub generate_merkle_root : MerkleTree → MerkleTree
  generate_merkle_root t = record t {
    root = first_node (reduce (length t.accounts_vec) (leaves t.accounts_vec));
  }

  pub length-pair_chunks :
      (x : MerkleNode) (xs : List MerkleNode)
      → (0 < length (pair_chunks (x ∷ xs)))
        × (2 * length (pair_chunks (x ∷ xs)) ≤ length (x ∷ xs) + 1)
  unfolding pair_chunks
  length-pair_chunks x [] = omega arith
  length-pair_chunks x (y ∷ []) = omega arith
  length-pair_chunks x (y ∷ z ∷ rest) = let (p, q) = length-pair_chunks z rest in omega arith

  -- With as much fuel as there are nodes the loop ends with one node, or with none if it began so.
  pub reduce_total :
      (fuel : ℕ) (x : MerkleNode) (xs : List MerkleNode)
      → length (x ∷ xs) ≤ fuel
      → (n : MerkleNode) × (reduce fuel (x ∷ xs) ≡ n ∷ [])
  unfolding reduce pair_chunks
  reduce_total zero x xs h = absurd (omega arith)
  reduce_total (suc fuel) x [] h = (x, refl)
  reduce_total (suc fuel) x (y ∷ rest) h =
      reduce_total fuel (pair_and_hash x y) (pair_chunks rest)
        (omega (arith, length-pair_chunks x (y ∷ rest)))

  -- With no accounts there is no root; with any, the loop ends with a single node within as many
  -- rounds as there are accounts, and that node is the root.
  pub generate_merkle_root_total :
      (t : MerkleTree)
      → ((t.accounts_vec ≡ []) × ((generate_merkle_root t).root ≡ none))
        ⊎ ((n : MerkleNode) × (reduce (length t.accounts_vec) (leaves t.accounts_vec) ≡ n ∷ [])
            × ((generate_merkle_root t).root ≡ some n))
  unfolding generate_merkle_root reduce
  generate_merkle_root_total t = go t.accounts_vec refl
    where
      go :
          (l : List Account)
          → t.accounts_vec ≡ l
          → ((t.accounts_vec ≡ []) × ((generate_merkle_root t).root ≡ none))
            ⊎ ((n : MerkleNode) × (reduce (length t.accounts_vec) (leaves t.accounts_vec) ≡ n ∷ [])
                × ((generate_merkle_root t).root ≡ some n))
      go [] e = inl (e, rw e)
      go (a ∷ l) e =
          let (n, q) =
            reduce_total (length (a ∷ l)) (MerkleNode.leaf (hash_account a)) (leaves l)
              (omega (arith, length-map (λ (x : Account). MerkleNode.leaf (hash_account x)) l)) in
          inr (n, rw e q, rw (e, q))
