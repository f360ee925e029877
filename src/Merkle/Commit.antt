-- ===== src/Merkle/Commit.antt =====
-- src/modules/merkle_tree.rs: what the hash at the root says of the accounts.
use mini_block_chain.Prelude.{
  ℕ, zero, suc, ◌≡◌, refl, sym, ap, ◌∙◌, ◌≢◌, ◌⊎◌, inl, inr, Option, none, some, List, [], ◌∷◌,
  ◌++◌, map, arith, length, length-map, All,
}
use mini_block_chain.Bytes.{Bytes, bytes_discrete}
use mini_block_chain.Merkle.{Account, MerkleNode, MerkleTree}
use mini_block_chain.Merkle.Root.{
  extract_hash, account_bytes, hash_account, pair_and_hash, pair_chunks, reduce, leaves,
  generate_merkle_root, generate_merkle_root_total,
}

-- Two different inputs with one hash.
abbrev pub Collision : (Bytes → Bytes) → Type 0
Collision sha256 = (x : Bytes) × (y : Bytes) × (x ≢ y) × (sha256 x ≡ sha256 y)

append_split : (a c b d : Bytes) → length a ≡ length c → a ++ b ≡ c ++ d → (a ≡ c) × (b ≡ d)
append_split [] [] b d h e = (refl, e)
append_split [] (y ∷ c) b d h e = absurd (omega arith)
append_split (x ∷ a) [] b d h e = absurd (omega arith)
append_split (x ∷ a) (y ∷ c) b d h e =
    let (p, q) = append_split a c b d (omega arith) (ground arith) in (ground arith, q)

module _ (sha256 : Bytes → Bytes) (size : (x : Bytes) → length (sha256 x) ≡ 32) where
  abbrev hashes : List MerkleNode → List Bytes
  hashes = map extract_hash

  abbrev IsHash : Bytes → Type 0
  IsHash b = length b ≡ 32

  same_input : (x y : Bytes) → sha256 x ≡ sha256 y → (x ≡ y) ⊎ Collision sha256
  same_input x y e = elim (bytes_discrete x y) [ yes p ↦ inl p | no n ↦ inr (x, y, n, e) ]

  same_pair :
      (a b c d : Bytes)
      → IsHash a
      → IsHash c
      → sha256 (a ++ b) ≡ sha256 (c ++ d)
      → ((a ≡ c) × (b ≡ d)) ⊎ Collision sha256
  same_pair a b c d ha hc e = elim (same_input (a ++ b) (c ++ d) e) [
    | inl p ↦ inl (append_split a c b d (omega arith) p)
    | inr x ↦ inr x
  ]

  pair_chunks_size :
      (xs : List MerkleNode) → All IsHash (hashes xs) → All IsHash (hashes (pair_chunks sha256 xs))
  unfolding pair_chunks pair_and_hash extract_hash
  pair_chunks_size [] h = tt
  pair_chunks_size (x ∷ []) h = (size _, tt)
  pair_chunks_size (x ∷ y ∷ rest) h = (size _, pair_chunks_size rest h.1.1)

  pair_chunks_binds :
      (xs ys : List MerkleNode)
      → length xs ≡ length ys
      → All IsHash (hashes xs)
      → All IsHash (hashes ys)
      → hashes (pair_chunks sha256 xs) ≡ hashes (pair_chunks sha256 ys)
      → (hashes xs ≡ hashes ys) ⊎ Collision sha256
  unfolding pair_chunks pair_and_hash extract_hash
  pair_chunks_binds [] [] l hx hy e = inl refl
  pair_chunks_binds [] (y ∷ ys) l hx hy e = absurd (omega arith)
  pair_chunks_binds (x ∷ xs) [] l hx hy e = absurd (omega arith)
  pair_chunks_binds (x ∷ []) (y ∷ []) l hx hy e =
      elim (same_pair (extract_hash x) (extract_hash x) (extract_hash y) (extract_hash y) hx.0 hy.0
        (cc e)) [ inl (p, _) ↦ inl (cc p) | inr c ↦ inr c ]
  pair_chunks_binds (x ∷ []) (y ∷ y' ∷ ys) l hx hy e = absurd (omega arith)
  pair_chunks_binds (x ∷ x' ∷ xs) (y ∷ []) l hx hy e = absurd (omega arith)
  pair_chunks_binds (x ∷ x' ∷ xs) (y ∷ y' ∷ ys) l hx hy e =
      elim (same_pair (extract_hash x) (extract_hash x') (extract_hash y) (extract_hash y') hx.0
        hy.0 (cc e)) [
          | inr c ↦ inr c
          | inl (p, q) ↦ elim (pair_chunks_binds xs ys (omega arith) hx.1.1 hy.1.1 (cc e)) [
            | inl r ↦ inl (cc (p, q, r))
            | inr c ↦ inr c
          ]
        ]

  length-pair_chunks_eq :
      (xs ys : List MerkleNode)
      → length xs ≡ length ys
      → length (pair_chunks sha256 xs) ≡ length (pair_chunks sha256 ys)
  unfolding pair_chunks
  length-pair_chunks_eq [] [] l = refl
  length-pair_chunks_eq [] (y ∷ ys) l = absurd (omega arith)
  length-pair_chunks_eq (x ∷ xs) [] l = absurd (omega arith)
  length-pair_chunks_eq (x ∷ []) (y ∷ []) l = refl
  length-pair_chunks_eq (x ∷ []) (y ∷ y' ∷ ys) l = absurd (omega arith)
  length-pair_chunks_eq (x ∷ x' ∷ xs) (y ∷ []) l = absurd (omega arith)
  length-pair_chunks_eq (x ∷ x' ∷ xs) (y ∷ y' ∷ ys) l =
      ap suc (length-pair_chunks_eq xs ys (omega arith))

  reduce_binds :
      (fuel : ℕ) (xs ys : List MerkleNode)
      → length xs ≡ length ys
      → All IsHash (hashes xs)
      → All IsHash (hashes ys)
      → hashes (reduce sha256 fuel xs) ≡ hashes (reduce sha256 fuel ys)
      → (hashes xs ≡ hashes ys) ⊎ Collision sha256
  unfolding reduce
  reduce_binds zero xs ys l hx hy e = inl e
  reduce_binds (suc fuel) [] [] l hx hy e = inl refl
  reduce_binds (suc fuel) [] (y ∷ ys) l hx hy e = absurd (omega arith)
  reduce_binds (suc fuel) (x ∷ xs) [] l hx hy e = absurd (omega arith)
  reduce_binds (suc fuel) (x ∷ []) (y ∷ []) l hx hy e = inl e
  reduce_binds (suc fuel) (x ∷ []) (y ∷ y' ∷ ys) l hx hy e = absurd (omega arith)
  reduce_binds (suc fuel) (x ∷ x' ∷ xs) (y ∷ []) l hx hy e = absurd (omega arith)
  reduce_binds (suc fuel) (x ∷ x' ∷ xs) (y ∷ y' ∷ ys) l hx hy e =
      elim (reduce_binds fuel (pair_chunks sha256 (x ∷ x' ∷ xs)) (pair_chunks sha256 (y ∷ y' ∷ ys))
        (length-pair_chunks_eq (x ∷ x' ∷ xs) (y ∷ y' ∷ ys) l) (pair_chunks_size (x ∷ x' ∷ xs) hx)
        (pair_chunks_size (y ∷ y' ∷ ys) hy) e) [
          | inr c ↦ inr c
          | inl p ↦ pair_chunks_binds (x ∷ x' ∷ xs) (y ∷ y' ∷ ys) l hx hy p
        ]

  leaves_size : (as' : List Account) → All IsHash (hashes (leaves sha256 as'))
  unfolding extract_hash hash_account
  leaves_size [] = tt
  leaves_size (a ∷ as') = (size _, leaves_size as')

  leaves_bind :
      (as' bs : List Account)
      → hashes (leaves sha256 as') ≡ hashes (leaves sha256 bs)
      → (map account_bytes as' ≡ map account_bytes bs) ⊎ Collision sha256
  unfolding extract_hash hash_account
  leaves_bind [] [] e = inl refl
  leaves_bind [] (b ∷ bs) e = absurd (cc)
  leaves_bind (a ∷ as') [] e = absurd (cc)
  leaves_bind (a ∷ as') (b ∷ bs) e = elim (same_input (account_bytes a) (account_bytes b) (cc e)) [
    | inr c ↦ inr c
    | inl p ↦ elim (leaves_bind as' bs (cc e)) [ inr c ↦ inr c | inl q ↦ inl (cc (p, q)) ]
  ]

  abbrev root_hash : MerkleTree → Option Bytes
  root_hash t = elim t.root [ none ↦ none | some n ↦ some (extract_hash n) ]

  both_empty :
      (as' bs : List Account)
      → length as' ≡ length bs
      → as' ≡ []
      → map account_bytes as' ≡ map account_bytes bs
  both_empty [] [] l p = refl
  both_empty [] (b ∷ bs) l p = absurd (omega arith)
  both_empty (a ∷ as') bs l p = absurd (cc)

  length-leaves :
      (as' bs : List Account)
      → length as' ≡ length bs
      → length (leaves sha256 as') ≡ length (leaves sha256 bs)
  length-leaves as' bs l =
      length-map (λ (x : Account). MerkleNode.leaf (hash_account sha256 x)) as'
      ∙ (l ∙ sym (length-map (λ (x : Account). MerkleNode.leaf (hash_account sha256 x)) bs))

  roots_bind :
      (as' bs : List Account) (n m : MerkleNode)
      → length as' ≡ length bs
      → reduce sha256 (length as') (leaves sha256 as') ≡ n ∷ []
      → reduce sha256 (length bs) (leaves sha256 bs) ≡ m ∷ []
      → extract_hash n ≡ extract_hash m
      → (map account_bytes as' ≡ map account_bytes bs) ⊎ Collision sha256
  roots_bind as' bs n m l r r' e =
      elim (reduce_binds (length as') (leaves sha256 as') (leaves sha256 bs)
        (length-leaves as' bs l) (leaves_size as') (leaves_size bs) same) [
          | inr c ↦ inr c
          | inl p ↦ leaves_bind as' bs p
        ]
    where
      same :
          hashes (reduce sha256 (length as') (leaves sha256 as'))
          ≡ hashes (reduce sha256 (length as') (leaves sha256 bs))
      same = rw (r, l, r') (ap (λ (h : Bytes). h ∷ []) e)

  -- With a hash of 32 bytes, two trees over equally many accounts whose roots carry the same hash
  -- were built from the same account bytes, or show a collision of the hash function.
  pub generate_merkle_root_binds :
      (t u : MerkleTree)
      → length t.accounts_vec ≡ length u.accounts_vec
      → root_hash (generate_merkle_root sha256 t) ≡ root_hash (generate_merkle_root sha256 u)
      → (map account_bytes t.accounts_vec ≡ map account_bytes u.accounts_vec) ⊎ Collision sha256
  generate_merkle_root_binds t u l e = elim (generate_merkle_root_total sha256 t) [
    | inl (p, _) ↦ inl (both_empty t.accounts_vec u.accounts_vec l p)
    | inr (n, r, q) ↦ elim (generate_merkle_root_total sha256 u) [
      | inl (p, _) ↦ inl (sym (both_empty u.accounts_vec t.accounts_vec (sym l) p))
      | inr (m, r', q') ↦
          roots_bind t.accounts_vec u.accounts_vec n m l r r' (ground (arith, e, q, q'))
    ]
  ]
