-- ===== src/Node.antt =====
-- src/modules/validation.rs, `ValidatorNode`: the state of a node, and the monad of its handlers.
-- A handler runs on the node, and ends with a value, in a panic, or still waiting; the state comes
-- back each time, since what was written stays written.
pub mod Request
use mini_block_chain.Prelude.{
  ℕ, zero, suc, ◌+◌, ◌-◌, ◌*◌, ◌/◌, ◌%◌, ◌^◌, ◌≤◌, ◌<◌, ◌≡◌, refl, sym, ap, ◌∙◌, ◌≢◌, ◌↔◌, ◌⊎◌, inl,
  inr, ite, if_pos, if_neg, Bool, true, false, ◌&&◌, ◌||◌, not, Option, none, some, List, [], ◌∷◌,
  ◌++◌, map, arith, dec_lt, dec_le, ℕ_discrete, ltb, leb, ◌==◌, if◌then◌else◌, Bool-cases,
  Option-cases, length, length-append, length-map, sum, sum-append, All, All-map, count, retain_ne,
  count-append, count-retain_ne, sum_of_count-eq, u64_mod, u32_mod, checked_add, checked_sub,
  sum_u64, in_u64, sum_u64_lem,
}
use mini_block_chain.Bytes.{Bytes, Text}
use mini_block_chain.HashMap.{HashMap}
use mini_block_chain.Utxo.Set
use mini_block_chain.Utxo.Set.{UtxoSet, rebuild_index}
use mini_block_chain.Merkle.{Account, MerkleTree}
use mini_block_chain.Merkle
use mini_block_chain.Chain.{Block, BlockChain, store_then_push}
use mini_block_chain.Chain

-- src/modules/adopt_network_state.rs: what a node tells a newcomer.
pub record PeerLedgerResponse : Type 0 where
  pub action : Text
  pub blockchain : List Block
  pub accounts_vec : List Account
  pub accounts_map : HashMap Bytes ℕ
  pub used_zk_proofs : HashMap Bytes (List Text)

-- The two `Notify` are not state of the model: a wait looks at its condition after each step of
-- the other tasks.
pub record ValidatorNode : Type 0 where
  pub blockchain : BlockChain
  pub merkle_tree : MerkleTree
  pub utxo_set : UtxoSet
  pub peer_decisions : HashMap Bytes (ℕ × ℕ)
  pub client_decisions : HashMap Bytes Bool
  pub client_port_address : Text
  pub used_zk_proofs : HashMap Bytes (List Text)
  pub active_peers : List (Text × ℕ)
  pub total_peers : ℕ
  pub peer_ledger_states : List PeerLedgerResponse

-- `ValidatorNode::new`, at the time of the genesis block.
unfoldable pub new : ℕ → ValidatorNode
new time = record {
  blockchain = Chain.new time;
  merkle_tree = Merkle.new;
  utxo_set = rebuild_index Set.new;
  peer_decisions = [];
  client_decisions = [];
  client_port_address = [];
  used_zk_proofs = [];
  active_peers = [];
  total_peers = 0;
  peer_ledger_states = [];
}

pub data Outcome (A : Type 0) : Type 0 where
  done : A → Outcome A
  panicked : Outcome A
  waiting : Outcome A

abbrev pub Action : Type 0 → Type 0
Action A = ValidatorNode → Outcome A × ValidatorNode

-- What other tasks do to the node while a handler does not hold it.
abbrev pub Env : Type 0
Env = ValidatorNode → ValidatorNode

module _ {A : Type 0} where
  abbrev pub pure : A → Action A
  pure a n = (done a, n)

  abbrev pub gets : (ValidatorNode → A) → Action A
  gets f n = (done (f n), n)

  -- `unwrap()`
  abbrev pub unwrap : Option A → Action A
  unwrap none n = (panicked, n)
  unwrap (some a) n = (done a, n)

infixl 5 ◌>>=◌ ◌>>◌
abbrev pub ◌>>=◌ : {A B : Type 0} → Action A → (A → Action B) → Action B
◌>>=◌ m f n =
    let (r, n') = m n in
    elim r [ done a ↦ f a n' | panicked ↦ (panicked, n') | waiting ↦ (waiting, n') ]

abbrev pub ◌>>◌ : {B : Type 0} → Action (Unit {0}) → Action B → Action B
m >> k = m >>= λ _. k

abbrev pub update : Env → Action (Unit {0})
update f n = (done tt, f n)

abbrev pub set_tree : MerkleTree → Env
set_tree t n = record n { merkle_tree = t }

abbrev pub set_chain : BlockChain → Env
set_chain c n = record n { blockchain = c }

-- Stores a request and pushes its block, as each handler does last.
abbrev pub write_block : (Bytes → Bytes) → Block → Action (Unit {0})
write_block sha256 b n = elim (store_then_push sha256 b n.blockchain) [
  | none ↦ (panicked, n)
  | some c ↦ (done tt, set_chain c n)
]

-- `ValidatorNode::update_active_peer_count`
unfoldable pub update_active_peer_count : Env
update_active_peer_count n = record n { total_peers = length n.active_peers }
