-- ===== src/Adopt/Joining.antt =====
-- src/modules/network.rs, `start_listening`, and src/modules/adopt_network_state.rs,
-- `adopt_network_state`: how a node joins the network.
use mini_block_chain.Prelude.{
  ℕ, ◌+◌, ◌≡◌, ap, Option, none, some, List, [], ◌∷◌, ◌++◌, map, arith, length, length-append,
}
use mathlib.Core.List.{append-nil, append_assoc}
use mini_block_chain.Bytes.{Bytes, Text}
use mini_block_chain.HashMap.{HashMap}
use mini_block_chain.Node.{
  PeerLedgerResponse, ValidatorNode, Outcome, done, Action, Env, ◌>>◌, update,
  update_active_peer_count,
}
use mini_block_chain.Adopt.{
  Call, ledgers_loop, await_all_peer_ledger_states_received, adopt_majority,
}
use mini_block_chain.Client.Ports.{Binding, Config, try_bind_to_ports}

-- The node that listens, with its address; `none` if it returns because no port is free.
unfoldable pub start_listening :
    (Text → Option Text) → Config → ValidatorNode → Option ValidatorNode
start_listening bind config n = elim (try_bind_to_ports bind config) [
  | Binding.bound port_address ↦ some (record n { client_port_address = port_address })
  | Binding.unreadable_config ↦ none
  | Binding.unparsable_config ↦ none
  | Binding.no_ports_available ↦ none
  | Binding.refused e ↦ none
]

-- A response of a peer, as `handle_peer_ledger_response` stores it.
abbrev pub ledger_arrives : PeerLedgerResponse → Env
ledger_arrives s n = record n { peer_ledger_states = n.peer_ledger_states ++ s ∷ [] }

module _ (sha256 : Bytes → Bytes) (serialize : Call → PeerLedgerResponse → Text)
    (iterate : HashMap Bytes ℕ → HashMap Bytes ℕ) where
  -- The request that is sent first changes no state.
  unfoldable pub adopt_network_state : List Env → Action (Unit {0})
  adopt_network_state es =
      await_all_peer_ledger_states_received es >> update (adopt_majority sha256 serialize iterate)

  -- The task that `start_listening` spawns five seconds after the start.
  unfoldable pub join_network : List Env → Action (Unit {0})
  join_network es = update update_active_peer_count >> adopt_network_state es

abbrev with_states : ValidatorNode → List PeerLedgerResponse → ValidatorNode
with_states n ss = record n { peer_ledger_states = ss }

loop_collects :
    (total : ℕ) (ss : List PeerLedgerResponse) (n : ValidatorNode)
    → length n.peer_ledger_states + length ss ≡ total
    → ledgers_loop total (map ledger_arrives ss) n
      ≡ (done tt, with_states n (n.peer_ledger_states ++ ss))
unfolding ledgers_loop
loop_collects total [] n l = ground (arith, l, append-nil n.peer_ledger_states)
loop_collects total (s ∷ ss) n l = ground (
  arith,
  l,
  length-append n.peer_ledger_states (s ∷ []),
  append_assoc n.peer_ledger_states (s ∷ []) ss,
  loop_collects total ss (ledger_arrives s n),
)

abbrev informed : ValidatorNode → List PeerLedgerResponse → ValidatorNode
informed n ss = record n { total_peers = length n.active_peers; peer_ledger_states = ss }

wait_collects :
    (ss : List PeerLedgerResponse) (n : ValidatorNode)
    → n.peer_ledger_states ≡ []
    → length ss ≡ length n.active_peers
    → await_all_peer_ledger_states_received (map ledger_arrives ss) (update_active_peer_count n)
      ≡ (done tt, informed n ss)
unfolding await_all_peer_ledger_states_received update_active_peer_count
wait_collects [] n e l = ground (arith, e, l)
wait_collects (s ∷ ss) n e l =
    ground
      (arith, e, l, loop_collects (length n.active_peers) (s ∷ ss) (update_active_peer_count n))

module _ (sha256 : Bytes → Bytes) (serialize : Call → PeerLedgerResponse → Text)
    (iterate : HashMap Bytes ℕ → HashMap Bytes ℕ) where
  -- A node that has no states on record, and gets as many responses as it has active peers: it
  -- ends its wait with the last of them, and adopts the majority among exactly these responses, in
  -- the order in which they arrived; without active peers it stays as it is, its count of peers
  -- set to 0.
  pub join_network_lem :
      (ss : List PeerLedgerResponse) (n : ValidatorNode)
      → n.peer_ledger_states ≡ []
      → length ss ≡ length n.active_peers
      → join_network sha256 serialize iterate (map ledger_arrives ss) n ≡ (
        done tt,
        adopt_majority sha256 serialize iterate
            (record n { total_peers = length n.active_peers; peer_ledger_states = ss }),
      )
  unfolding join_network adopt_network_state
  join_network_lem ss n e l =
      ap
        (λ (q : Outcome (Unit {0}) × ValidatorNode).
          ((λ _. q) >> update (adopt_majority sha256 serialize iterate)) n)
        (wait_collects ss n e l)
