-- ===== src/Chain.antt =====
-- src/modules/blockchain.rs: the blocks, their hashes, and the queue of pending requests.
pub mod Push
pub mod Pending
pub mod Export
pub mod Printing
mod Tests
use mini_block_chain.Prelude.{
  ℕ, zero, suc, ◌+◌, ◌-◌, ◌*◌, ◌/◌, ◌%◌, ◌^◌, ◌≤◌, ◌<◌, ◌≡◌, refl, sym, ap, ◌∙◌, ◌≢◌, ◌↔◌, ◌⊎◌, inl,
  inr, ite, if_pos, if_neg, Bool, true, false, ◌&&◌, ◌||◌, not, Option, none, some, List, [], ◌∷◌,
  ◌++◌, map, arith, dec_lt, dec_le, ℕ_discrete, ltb, leb, ◌==◌, if◌then◌else◌, Bool-cases,
  Option-cases, length, length-append, length-map, sum, sum-append, All, All-map, count, retain_ne,
  count-append, count-retain_ne, sum_of_count-eq, u64_mod, u32_mod, checked_add, checked_sub,
  sum_u64, in_u64, sum_u64_lem,
}
use mini_block_chain.Bytes.{Bytes, bytes_discrete, le_bytes, be_bytes}
use mini_block_chain.HashMap.{HashMap, get, insert, upsert}
use mini_block_chain.Utxo.{UtxoTransaction, CoinbaseTransaction, TxInput, TxOutput}

pub data Block : Type 0 where
  genesis : (time : ℕ) → Block
  transaction :
      (sender : Bytes) (sender_balance : ℕ) (recipient : Bytes) (recipient_balance : ℕ) (amount : ℕ)
      (time : ℕ) (sender_nonce : ℕ) (hash : Bytes)
      → Block
  new_account : (address : Bytes) (account_balance : ℕ) (time : ℕ) (hash : Bytes) → Block
  faucet : (address : Bytes) (account_balance : ℕ) (time : ℕ) (hash : Bytes) → Block
  utxo_transaction : (tx : UtxoTransaction) (block_height : ℕ) (hash : Bytes) → Block
  coinbase : (tx : CoinbaseTransaction) (hash : Bytes) → Block

-- The derived `==`.
unfoldable pub block_discrete : Discrete Block
unfolding ℕ_discrete
block_discrete = hlevel ℕ_discrete

pub record BlockChain : Type 0 where
  pub chain : List Block
  pub pending_request_queue : List Bytes
  pub joint_request_map : HashMap Bytes (List Block)

-- `BlockChain::new`, at the time that the clock gives.
unfoldable pub new : ℕ → BlockChain
new time = record {
  chain = Block.genesis time ∷ [];
  pending_request_queue = [];
  joint_request_map = [];
}

abbrev pub first_public_key : List TxInput → Option Bytes
first_public_key [] = none
first_public_key (i ∷ is) = some i.public_key

abbrev first_recipient : List TxOutput → Option Bytes
first_recipient [] = none
first_recipient (o ∷ os) = some o.recipient

-- The address under which a request is filed; `none` is the panic on a genesis block, on a UTXO
-- transaction with no input and on a coinbase with no output.
unfoldable pub request_address : Block → Option Bytes
request_address (Block.genesis time) = none
request_address (Block.transaction s sb r rb amount time nonce hash) = some s
request_address (Block.new_account a b time hash) = some a
request_address (Block.faucet a b time hash) = some a
request_address (Block.utxo_transaction tx height hash) = first_public_key tx.inputs
request_address (Block.coinbase tx hash) = first_recipient tx.outputs

-- The state after a request is filed under its address.
abbrev pub stored : Block → Bytes → BlockChain → BlockChain
stored b address c = record c {
  pending_request_queue = c.pending_request_queue ++ address ∷ [];
  joint_request_map =
      upsert bytes_discrete address [] (λ requests. requests ++ b ∷ []) c.joint_request_map;
}

unfoldable pub store_incoming_requests : Block → BlockChain → Option BlockChain
store_incoming_requests b c = elim (request_address b) [
  | none ↦ none
  | some address ↦ some (stored b address c)
]

-- What `set_block_hash` feeds the hasher: the block without its hash.
unfoldable pub block_bytes : Block → Bytes
block_bytes (Block.genesis time) = le_bytes 8 time
block_bytes (Block.transaction s sb r rb amount time nonce hash) =
    s
    ++ (le_bytes 8 sb
        ++ (r ++ (le_bytes 8 rb ++ (le_bytes 8 amount ++ (le_bytes 8 time ++ le_bytes 8 nonce)))))
block_bytes (Block.new_account a b time hash) = a ++ (le_bytes 8 b ++ le_bytes 8 time)
block_bytes (Block.faucet a b time hash) = a ++ (le_bytes 8 b ++ le_bytes 8 time)
block_bytes (Block.utxo_transaction tx height hash) = tx.hash ++ le_bytes 8 height
block_bytes (Block.coinbase tx hash) = tx.hash

abbrev pub with_hash : Bytes → Block → Block
with_hash h (Block.genesis time) = Block.genesis time
with_hash h (Block.transaction s sb r rb amount time nonce hash) =
    Block.transaction s sb r rb amount time nonce h
with_hash h (Block.new_account a b time hash) = Block.new_account a b time h
with_hash h (Block.faucet a b time hash) = Block.faucet a b time h
with_hash h (Block.utxo_transaction tx height hash) = Block.utxo_transaction tx height h
with_hash h (Block.coinbase tx hash) = Block.coinbase tx h

-- `requests.iter().position(|r| *r == block)` and `requests.remove(index)`.
unfoldable pub remove_request : Block → List Block → List Block
remove_request b [] = []
remove_request b (r ∷ rs) = ite (block_discrete r b) rs (r ∷ remove_request b rs)

abbrev pub pop_front : List Bytes → List Bytes
pop_front [] = []
pop_front (a ∷ as') = as'

-- What `hash_blockchain` feeds the hasher for one block.
unfoldable pub chain_block_bytes : Block → Bytes
chain_block_bytes (Block.genesis time) = le_bytes 8 time
chain_block_bytes (Block.transaction s sb r rb amount time nonce hash) =
    s
    ++ (be_bytes 8 sb
        ++ (r
            ++ (be_bytes 8 rb
                ++ (be_bytes 8 amount ++ (le_bytes 8 time ++ (le_bytes 8 nonce ++ hash))))))
chain_block_bytes (Block.new_account a b time hash) =
    a ++ (le_bytes 8 b ++ (le_bytes 8 time ++ hash))
chain_block_bytes (Block.faucet a b time hash) = a ++ (le_bytes 8 b ++ (le_bytes 8 time ++ hash))
chain_block_bytes (Block.utxo_transaction tx height hash) = tx.hash ++ (le_bytes 8 height ++ hash)
chain_block_bytes (Block.coinbase tx hash) = tx.hash ++ hash

unfoldable pub chain_bytes : List Block → Bytes
chain_bytes [] = []
chain_bytes (b ∷ bs) = chain_block_bytes b ++ chain_bytes bs

module _ (sha256 : Bytes → Bytes) where
  unfoldable pub set_block_hash : Block → Block
  set_block_hash b = with_hash (sha256 (block_bytes b)) b

  -- The request that equals the block is taken out, if there is one.
  abbrev pub pushed_map : Block → Bytes → HashMap Bytes (List Block) → HashMap Bytes (List Block)
  pushed_map b address m = elim (get bytes_discrete address m) [
    | none ↦ m
    | some requests ↦ insert bytes_discrete address (remove_request (set_block_hash b) requests) m
  ]

  -- The state after a block is pushed, with its hash set.
  abbrev pub pushed : Block → Bytes → BlockChain → BlockChain
  pushed b address c = record {
    chain = c.chain ++ set_block_hash b ∷ [];
    pending_request_queue = pop_front c.pending_request_queue;
    joint_request_map = pushed_map b address c.joint_request_map;
  }

  unfoldable pub push_block_to_chain : Block → BlockChain → Option BlockChain
  push_block_to_chain b c = elim (request_address b) [
    | none ↦ none
    | some address ↦ some (pushed b address c)
  ]

  -- What the handlers do with a request that is accepted.
  unfoldable pub store_then_push : Block → BlockChain → Option BlockChain
  store_then_push b c = elim (store_incoming_requests b c) [
    | none ↦ none
    | some c' ↦ push_block_to_chain b c'
  ]

  unfoldable pub hash_blockchain : BlockChain → Bytes
  hash_blockchain c = sha256 (chain_bytes c.chain)
