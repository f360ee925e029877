-- ===== src/Chain/Push.antt =====
-- src/modules/blockchain.rs, `push_block_to_chain`: the chain and the hashes of its blocks.
use mini_block_chain.Prelude.{ℕ, ◌≡◌, refl, ap, ◌∙◌, some, List, [], ◌∷◌, ◌++◌, arith, All}
use mini_block_chain.Bytes.{Bytes}
use mini_block_chain.Chain.{
  stored, pushed, store_then_push, store_then_push, Block, BlockChain, new, request_address,
  store_incoming_requests, block_bytes, with_hash, set_block_hash, push_block_to_chain,
}

module _ (sha256 : Bytes → Bytes) where
  -- The hash of a block does not depend on the hash that it carried.
  pub block_bytes-with_hash : (h : Bytes) (b : Block) → block_bytes (with_hash h b) ≡ block_bytes b
  unfolding block_bytes
  block_bytes-with_hash h (Block.genesis time) = refl
  block_bytes-with_hash h (Block.transaction s sb r rb amount time nonce hash) = refl
  block_bytes-with_hash h (Block.new_account a b time hash) = refl
  block_bytes-with_hash h (Block.faucet a b time hash) = refl
  block_bytes-with_hash h (Block.utxo_transaction tx height hash) = refl
  block_bytes-with_hash h (Block.coinbase tx hash) = refl

  with_hash_twice : (h h' : Bytes) (b : Block) → with_hash h (with_hash h' b) ≡ with_hash h b
  with_hash_twice h h' (Block.genesis time) = refl
  with_hash_twice h h' (Block.transaction s sb r rb amount time nonce hash) = refl
  with_hash_twice h h' (Block.new_account a b time hash) = refl
  with_hash_twice h h' (Block.faucet a b time hash) = refl
  with_hash_twice h h' (Block.utxo_transaction tx height hash) = refl
  with_hash_twice h h' (Block.coinbase tx hash) = refl

  -- A block that carries its own hash.
  abbrev pub IsHashed : Block → Type 0
  IsHashed b = set_block_hash sha256 b ≡ b

  pub set_block_hash-IsHashed : (b : Block) → IsHashed (set_block_hash sha256 b)
  unfolding set_block_hash
  set_block_hash-IsHashed b =
      ap (λ (x : Bytes). with_hash (sha256 x) (with_hash (sha256 (block_bytes b)) b))
        (block_bytes-with_hash (sha256 (block_bytes b)) b)
      ∙ with_hash_twice (sha256 (block_bytes b)) (sha256 (block_bytes b)) b

  pub All-append :
      (bs : List Block) (b : Block) → All IsHashed bs → IsHashed b → All IsHashed (bs ++ b ∷ [])
  All-append [] b h k = (k, tt)
  All-append (x ∷ bs) b h k = (h.0, All-append bs b h.1 k)

  -- On a chain whose blocks carry their own hashes, a push that does not panic adds the block with
  -- its hash set at the end, and all blocks carry their own hashes.
  pub push_block_to_chain-IsHashed :
      (b : Block) (c : BlockChain) {c' : BlockChain}
      → All IsHashed c.chain
      → push_block_to_chain sha256 b c ≡ some c'
      → (c'.chain ≡ c.chain ++ set_block_hash sha256 b ∷ []) × All IsHashed c'.chain
  unfolding push_block_to_chain
  push_block_to_chain-IsHashed b c {c'} h e =
      (added, rw added (All-append c.chain (set_block_hash sha256 b) h (set_block_hash-IsHashed b)))
    where
      added : c'.chain ≡ c.chain ++ set_block_hash sha256 b ∷ []
      added = ground (arith, e)

  pub new-IsHashed : (time : ℕ) → All IsHashed (new time).chain
  unfolding new set_block_hash
  new-IsHashed time = (refl, tt)

  -- A request with an address is stored and pushed: it never panics, and the chain grows by its
  -- block.
  pub store_then_push_total :
      (b : Block) (c : BlockChain) {address : Bytes}
      → request_address b ≡ some address
      → (c' : BlockChain) × (store_then_push sha256 b c ≡ some c')
        × (c'.chain ≡ c.chain ++ set_block_hash sha256 b ∷ [])
  unfolding store_then_push store_incoming_requests push_block_to_chain
  store_then_push_total b c {address} e =
      (pushed sha256 b address (stored b address c), ground (arith, e), refl)
