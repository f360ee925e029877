-- ===== src/Chain/Pending.antt =====
-- src/modules/blockchain.rs: the requests that wait, across `store_incoming_requests` and
-- `push_block_to_chain`.
use mini_block_chain.Prelude.{
  ◌≡◌, refl, ap, ◌∙◌, ◌≢◌, ◌⊎◌, inl, inr, ite, if_pos, if_neg, Option, none, some, List, [], ◌∷◌,
  ◌++◌, arith, Option-cases, All,
}
use mini_block_chain.Bytes.{Bytes, bytes_discrete}
use mini_block_chain.HashMap.{HashMap, get}
use mini_block_chain.HashMap.Laws.{get-insert}
use mathlib.Core.Path.{subst}
use mini_block_chain.Chain.{
  stored, pushed, pushed_map, store_then_push, upsert, block_bytes, Block, BlockChain,
  block_discrete, request_address, store_incoming_requests, with_hash, set_block_hash,
  remove_request, pop_front, push_block_to_chain,
}

abbrev pub hash_of : Block → Option Bytes
hash_of (Block.genesis time) = none
hash_of (Block.transaction s sb r rb amount time nonce hash) = some hash
hash_of (Block.new_account a b time hash) = some hash
hash_of (Block.faucet a b time hash) = some hash
hash_of (Block.utxo_transaction tx height hash) = some hash
hash_of (Block.coinbase tx hash) = some hash

-- A request as the handlers build it: not a genesis block, and with an empty hash.
abbrev pub IsUnhashed : Block → Type 0
IsUnhashed b = hash_of b ≡ some []

abbrev pub requests_of : Bytes → HashMap Bytes (List Block) → List Block
requests_of a m = elim (get bytes_discrete a m) [ none ↦ [] | some rs ↦ rs ]

-- All waiting requests have empty hashes.
abbrev pub AllUnhashed : HashMap Bytes (List Block) → Type 0
AllUnhashed m = (a : Bytes) → All IsUnhashed (requests_of a m)

module _ (sha256 : Bytes → Bytes) (nonempty : (x : Bytes) → sha256 x ≢ []) where
  hash_of-with_hash :
      (h : Bytes) (b : Block)
      → (hash_of (with_hash h b) ≡ none) ⊎ (hash_of (with_hash h b) ≡ some h)
  hash_of-with_hash h (Block.genesis time) = inl refl
  hash_of-with_hash h (Block.transaction s sb r rb amount time nonce hash) = inr refl
  hash_of-with_hash h (Block.new_account a b time hash) = inr refl
  hash_of-with_hash h (Block.faucet a b time hash) = inr refl
  hash_of-with_hash h (Block.utxo_transaction tx height hash) = inr refl
  hash_of-with_hash h (Block.coinbase tx hash) = inr refl

  not_hashed : (b r : Block) → IsUnhashed r → r ≢ set_block_hash sha256 b
  unfolding set_block_hash
  not_hashed b r u e = elim (hash_of-with_hash (sha256 (block_bytes b)) b) [
    | inl p ↦ cc (ap hash_of e, p, u)
    | inr p ↦ nonempty (block_bytes b) (ground (arith, ap hash_of e, p, u))
  ]

  remove_request_absent :
      (b : Block) (rs : List Block)
      → All IsUnhashed rs
      → remove_request (set_block_hash sha256 b) rs ≡ rs
  unfolding remove_request
  remove_request_absent b [] h = refl
  remove_request_absent b (r ∷ rs) h =
      if_neg (block_discrete r (set_block_hash sha256 b)) (not_hashed b r h.0) _ _
      ∙ ap (◌∷◌ r) (remove_request_absent b rs h.1)

  All-append :
      (rs : List Block) (b : Block)
      → All IsUnhashed rs
      → IsUnhashed b
      → All IsUnhashed (rs ++ b ∷ [])
  All-append [] b h k = (k, tt)
  All-append (r ∷ rs) b h k = (h.0, All-append rs b h.1 k)

  requests_of-upsert :
      (b : Block) (address a : Bytes) (m : HashMap Bytes (List Block))
      → requests_of a (upsert bytes_discrete address [] (λ requests. requests ++ b ∷ []) m)
        ≡ ite (bytes_discrete address a) (requests_of address m ++ b ∷ []) (requests_of a m)
  requests_of-upsert b address a m = elim (Option-cases (get bytes_discrete address m)) [
    | inl e ↦ ground (arith, e, get-insert bytes_discrete address a (b ∷ []) m)
    | inr (rs, e) ↦ ground (arith, e, get-insert bytes_discrete address a (rs ++ b ∷ []) m)
  ]

  requests_some :
      (a : Bytes) (m : HashMap Bytes (List Block)) (rs : List Block)
      → get bytes_discrete a m ≡ some rs
      → requests_of a m ≡ rs
  requests_some a m rs e = ground (arith, e)

  requests_of-pushed_map :
      (b : Block) (address a : Bytes) (m : HashMap Bytes (List Block))
      → AllUnhashed m
      → requests_of a (pushed_map sha256 b address m) ≡ requests_of a m
  requests_of-pushed_map b address a m h = elim (Option-cases (get bytes_discrete address m)) [
    | inl e ↦ ground (arith, e)
    | inr (rs, e) ↦ ground (
      arith,
      e,
      remove_request_absent b rs
          (subst (All IsUnhashed) (requests_some address m rs e) (h address)),
      get-insert bytes_discrete address a (remove_request (set_block_hash sha256 b) rs) m,
    )
  ]

  upsert-AllUnhashed :
      (b : Block) (address : Bytes) (m : HashMap Bytes (List Block))
      → IsUnhashed b
      → AllUnhashed m
      → AllUnhashed (upsert bytes_discrete address [] (λ requests. requests ++ b ∷ []) m)
  upsert-AllUnhashed b address m u h a =
      rw (requests_of-upsert b address a m) (elim (bytes_discrete address a) [
        | yes p ↦
            rw (if_pos (bytes_discrete address a) p _ _)
              (All-append (requests_of address m) b (h address) u)
        | no n ↦ rw (if_neg (bytes_discrete address a) n _ _) (h a)
      ])

  -- A block with an address and no hash is stored as a request and then pushed, while no stored
  -- request has a hash and the hash function never gives the empty one: it ends, the chain gains
  -- the block, the address joins the queue and the front of the queue leaves it, and the stored
  -- requests are the earlier ones and this one; still none has a hash.
  pub stored_request_stays :
      (b : Block) (c : BlockChain) (address : Bytes)
      → request_address b ≡ some address
      → IsUnhashed b
      → AllUnhashed c.joint_request_map
      → (c' : BlockChain) × (store_then_push sha256 b c ≡ some c')
        × (c'.chain ≡ c.chain ++ set_block_hash sha256 b ∷ [])
        × (c'.pending_request_queue ≡ pop_front (c.pending_request_queue ++ address ∷ []))
        × ((a : Bytes)
            → requests_of a c'.joint_request_map
              ≡ ite
                  (bytes_discrete address a)
                  (requests_of address c.joint_request_map ++ b ∷ [])
                  (requests_of a c.joint_request_map))
        × AllUnhashed c'.joint_request_map
  unfolding store_then_push store_incoming_requests push_block_to_chain
  stored_request_stays b c address e u h = (
    pushed sha256 b address (stored b address c),
    ground (arith, e),
    refl,
    refl,
    (λ a. requests_of-pushed_map b address a _ unhashed ∙ requests_of-upsert b address a _),
    (λ a. rw (requests_of-pushed_map b address a _ unhashed) (unhashed a)),
  )
    where
      unhashed : AllUnhashed (stored b address c).joint_request_map
      unhashed = upsert-AllUnhashed b address c.joint_request_map u h
