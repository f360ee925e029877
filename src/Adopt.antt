-- ===== src/Adopt.antt =====
-- src/modules/adopt_network_state.rs: a newcomer asks its peers for their ledgers and takes over
-- the one that most of them have. The JSON text of a ledger is a parameter: it is produced anew at
-- each call, and the order of its maps may differ from call to call.
pub mod Majority
pub mod Joining
pub mod Maps
pub mod Frequency
mod Tests
use mini_block_chain.Prelude.{
  ℕ, suc, ◌+◌, ite, true, false, Option, none, some, List, [], ◌∷◌, ◌++◌, ltb, ◌==◌, if◌then◌else◌,
  length,
}
use mini_block_chain.Bytes.{Bytes, Text, bytes_discrete, codes}
use mini_block_chain.HashMap.{HashMap, upsert}
use mini_block_chain.External.{Json, Key}
use mini_block_chain.Merkle.{MerkleTree}
use mini_block_chain.Chain.{BlockChain}
use mini_block_chain.Node.{PeerLedgerResponse, ValidatorNode, done, panicked, waiting, Action, Env}

-- The text "PeerLedgerResponse".
abbrev peer_ledger_response : Text
peer_ledger_response = codes "PeerLedgerResponse"

-- What a node tells about itself.
abbrev pub response_of : ValidatorNode → PeerLedgerResponse
response_of n = record {
  action = peer_ledger_response;
  blockchain = n.blockchain.chain;
  accounts_vec = n.merkle_tree.accounts_vec;
  accounts_map = n.merkle_tree.accounts_map;
  used_zk_proofs = n.used_zk_proofs;
}

module _ {Value : Type 0} (x : Json Value) where
  -- The response and the port that it is sent to.
  unfoldable pub handle_peer_ledger_request : Value → Action (PeerLedgerResponse × Text)
  handle_peer_ledger_request r n = elim (x.as_str (x.index r Key.response_port)) [
    | none ↦ (panicked, n)
    | some port ↦ (done (response_of n, port), n)
  ]

  -- Parsing is a parameter; a response that does not parse is a panic.
  unfoldable pub handle_peer_ledger_response :
      (Value → Option PeerLedgerResponse) → Value → Action (Unit {0})
  handle_peer_ledger_response parse r n = elim (parse r) [
    | none ↦ (panicked, n)
    | some response ↦
        (done tt, record n { peer_ledger_states = n.peer_ledger_states ++ response ∷ [] })
  ]

-- The loop of `await_all_peer_ledger_states_received`.
unfoldable pub ledgers_loop : ℕ → List Env → Action (Unit {0})
ledgers_loop total [] n =
    if length n.peer_ledger_states == total then (done tt, n) else (waiting, n)
ledgers_loop total (e ∷ es) n = elim (length n.peer_ledger_states == total) [
  | true ↦ (done tt, n)
  | false ↦ ledgers_loop total es (e n)
]

-- The number of peers is read once, before the loop.
unfoldable pub await_all_peer_ledger_states_received : List Env → Action (Unit {0})
await_all_peer_ledger_states_received es n =
    if n.total_peers == 0 then (done tt, n) else ledgers_loop n.total_peers es n

-- Which call serializes a state: that of the count, or that of the search for the winner.
pub data Call : Type 0 where
  counting finding : ℕ → Call

module _ (sha256 : Bytes → Bytes) (serialize : Call → PeerLedgerResponse → Text) where
  -- The loop that counts the hashes; `i` numbers the calls. The u32 of a count is left unbounded:
  -- it would take 2 ^ 32 states to leave it.
  unfoldable pub count_hashes : ℕ → List PeerLedgerResponse → HashMap Bytes ℕ → HashMap Bytes ℕ
  count_hashes i [] m = m
  count_hashes i (s ∷ ss) m =
      count_hashes (suc i) ss
        (upsert bytes_discrete (sha256 (serialize (Call.counting i) s)) 0 (λ k. k + 1) m)

  -- `find(|state| hash(state) == hash)`
  unfoldable pub find_state : ℕ → Bytes → List PeerLedgerResponse → Option PeerLedgerResponse
  find_state i h [] = none
  find_state i h (s ∷ ss) =
      ite (bytes_discrete (sha256 (serialize (Call.finding i) s)) h) (some s)
        (find_state (suc i) h ss)

-- `iter().max_by_key(|entry| entry.1)`: the last of the entries with the largest count.
unfoldable pub max_entry : HashMap Bytes ℕ → Option (Bytes × ℕ)
max_entry [] = none
max_entry ((h, k) ∷ m) = elim (max_entry m) [
  | none ↦ some (h, k)
  | some best ↦ if ltb best.1 k then some (h, k) else some best
]

-- The order in which a map of counts is iterated is a parameter too.
module _ (sha256 : Bytes → Bytes) (serialize : Call → PeerLedgerResponse → Text)
    (iterate : HashMap Bytes ℕ → HashMap Bytes ℕ) where
  -- The state with the winning hash, or the first one if none is found again.
  unfoldable pub majority_state : PeerLedgerResponse → List PeerLedgerResponse → PeerLedgerResponse
  majority_state s ss = elim (max_entry (iterate (count_hashes sha256 serialize 0 (s ∷ ss) []))) [
    | none ↦ s
    | some best ↦ elim (find_state sha256 serialize 0 best.0 (s ∷ ss)) [
      | none ↦ s
      | some winner ↦ winner
    ]
  ]

  -- The chain, both stores of the accounts and the used signatures are taken over; the set of
  -- unspent outputs, the root and the pending requests are not.
  abbrev pub adopt : PeerLedgerResponse → Env
  adopt p n = record n {
    blockchain = record b { chain = p.blockchain };
    merkle_tree = record t { accounts_vec = p.accounts_vec; accounts_map = p.accounts_map };
    used_zk_proofs = p.used_zk_proofs;
  }
    where
      b : BlockChain
      b = n.blockchain

      t : MerkleTree
      t = n.merkle_tree

  abbrev adopt_from : List PeerLedgerResponse → Env
  adopt_from [] n = n
  adopt_from (s ∷ ss) n = adopt (majority_state s ss) n

  unfoldable pub adopt_majority : Env
  adopt_majority n = adopt_from n.peer_ledger_states n
