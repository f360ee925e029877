-- ===== src/Adopt/Tests.antt =====
-- Examples of adoption: three states, two of them the same.
use mini_block_chain.Prelude.{ℕ, ◌≤◌, ◌≡◌, refl, List, [], ◌∷◌, map, Option, some, length}
use mini_block_chain.Bytes.{Bytes, Text, bytes_discrete}
use mini_block_chain.HashMap.{HashMap, get, IsUnique}
use mini_block_chain.Node.{PeerLedgerResponse, ValidatorNode, done, new}
use mini_block_chain.Adopt.{Call, majority_state, adopt_majority, response_of}
use mini_block_chain.Adopt.Majority.{IsAmong, adopt_majority_lem}
use mini_block_chain.Adopt.Joining.{join_network, ledger_arrives, join_network_lem}
use mini_block_chain.Adopt.Maps.{
  IsOrder, serialize_account_balances_map, serialize_used_zk_proofs_map,
  deserialize_account_balances_map, deserialize_used_zk_proofs_map, maps_read_back,
}
use mini_block_chain.Adopt.Frequency.{IsIteration, hash_of, occurrences, majority_state_lem}

abbrev common : PeerLedgerResponse
common = response_of (new 0)

abbrev rare : PeerLedgerResponse
rare = record common { accounts_map = (1 ∷ [], 5) ∷ [] }

abbrev sha256 : Bytes → Bytes
sha256 x = x

-- The text of a state: how many accounts it has.
abbrev text : PeerLedgerResponse → Text
text s = length s.accounts_map ∷ []

abbrev serialize : Call → PeerLedgerResponse → Text
serialize call s = text s

abbrev in_order : HashMap Bytes ℕ → HashMap Bytes ℕ
in_order m = m

in_order-IsIteration : IsIteration in_order
in_order-IsIteration = record { same = λ m h u. refl; once = λ m u. u }

abbrev newcomer : ValidatorNode
newcomer = record (new 9) { peer_ledger_states = rare ∷ common ∷ common ∷ [] }

adopt_majority_lem_example :
    let n' = adopt_majority sha256 serialize in_order newcomer in
    ((p : PeerLedgerResponse) × IsAmong p newcomer.peer_ledger_states
      × (n'.blockchain.chain ≡ p.blockchain)
      × (n'.merkle_tree.accounts_vec ≡ p.accounts_vec)
      × (n'.merkle_tree.accounts_map ≡ p.accounts_map)
      × (n'.used_zk_proofs ≡ p.used_zk_proofs))
    × (n'.utxo_set ≡ newcomer.utxo_set)
    × (n'.merkle_tree.root ≡ newcomer.merkle_tree.root)
    × (n'.blockchain.joint_request_map ≡ newcomer.blockchain.joint_request_map)
    × (n'.client_decisions ≡ newcomer.client_decisions)
adopt_majority_lem_example =
    adopt_majority_lem sha256 serialize in_order newcomer rare (common ∷ common ∷ []) refl

majority_state_lem_example :
    occurrences sha256 text (0 ∷ []) (rare ∷ common ∷ common ∷ [])
    ≤ occurrences sha256 text
        (hash_of sha256 text (majority_state sha256 serialize in_order rare (common ∷ common ∷ [])))
        (rare ∷ common ∷ common ∷ [])
majority_state_lem_example =
    majority_state_lem sha256 text in_order rare (common ∷ common ∷ []) (0 ∷ [])
      in_order-IsIteration

-- A node with two active peers, which both answer.
abbrev joiner : ValidatorNode
joiner = record (new 9) { active_peers = (1 ∷ [], 5) ∷ (2 ∷ [], 6) ∷ [] }

join_network_lem_example :
    join_network sha256 serialize in_order (map ledger_arrives (rare ∷ common ∷ [])) joiner ≡ (
      done tt,
      adopt_majority sha256 serialize in_order
          (record joiner { total_peers = 2; peer_ledger_states = rare ∷ common ∷ [] }),
    )
unfolding new
join_network_lem_example =
    join_network_lem sha256 serialize in_order (rare ∷ common ∷ []) joiner refl refl

-- Base64 is left out here.
abbrev same_text : Bytes → Text
same_text b = b

abbrev same_bytes : Text → Option Bytes
same_bytes t = some t

same-IsOrder : {V : Type 0} → IsOrder (λ (m : HashMap Bytes V). m)
same-IsOrder = record { same = λ k m. refl; unique = λ m u. u }

abbrev balances : HashMap Bytes ℕ
balances = (1 ∷ [], 5) ∷ (2 ∷ [], 6) ∷ []

abbrev used : HashMap Bytes (List Text)
used = (1 ∷ [], (7 ∷ []) ∷ []) ∷ []

keys_differ : IsUnique bytes_discrete balances
unfolding get bytes_discrete
keys_differ = (refl, (refl, tt))

one_key : IsUnique bytes_discrete used
unfolding get
one_key = (refl, tt)

maps_read_back_example :
    ((m : HashMap Bytes ℕ) × (deserialize_account_balances_map same_bytes
          (serialize_account_balances_map same_text (λ o. o) (λ o. o) balances)
        ≡ some m)
      × ((k : Bytes) → get bytes_discrete k m ≡ get bytes_discrete k balances))
    × ((m : HashMap Bytes (List Text)) × (deserialize_used_zk_proofs_map same_bytes
            (serialize_used_zk_proofs_map same_text (λ o. o) used)
          ≡ some m)
        × ((k : Bytes) → get bytes_discrete k m ≡ get bytes_discrete k used))
maps_read_back_example =
    maps_read_back same_text same_bytes (λ b. refl) (λ o. o) (λ o. o) (λ o. o) balances used
      same-IsOrder same-IsOrder same-IsOrder keys_differ one_key
