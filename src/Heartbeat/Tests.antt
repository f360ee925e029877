-- ===== src/Heartbeat/Tests.antt =====
-- An example of a heartbeat: one recent peer, one that is silent for too long, and the sender.
use mini_block_chain.Prelude.{◌≡◌, refl, ite, none, some, [], ◌∷◌, arith}
use mini_block_chain.Bytes.{Text, bytes_discrete}
use mini_block_chain.HashMap.{get, IsUnique}
use mini_block_chain.External.{Json}
use mini_block_chain.Node.{ValidatorNode, done, new}
use mini_block_chain.Heartbeat.{Reply, handle_heartbeat}
use mini_block_chain.Heartbeat.Peers.{IsPast, recent, handle_heartbeat_lem}

-- Requests of one field: a text is its own field.
abbrev texts : Json Text
texts = record {
  index = λ r k. r;
  as_str = λ r. some r;
  as_u64 = λ r. none;
  as_bool = λ r. none;
  as_array = λ r. none;
  to_string = λ r. r;
  to_tx_input = λ r. none;
  to_tx_output = λ r. none;
}

abbrev node : ValidatorNode
node = record (new 0) { active_peers = (1 ∷ [], 95) ∷ (2 ∷ [], 80) ∷ [] }

peers-IsPast : IsPast 100 node.active_peers
peers-IsPast = (omega arith, (omega arith, tt))

listed_once : IsUnique bytes_discrete node.active_peers
unfolding get bytes_discrete
listed_once = (refl, (refl, tt))

handle_heartbeat_lem_example :
    let (outcome, n') = handle_heartbeat texts (3 ∷ []) 100 node in
    (outcome ≡ done Reply.handled)
    × ((p : Text)
        → get bytes_discrete p n'.active_peers
          ≡ ite
              (bytes_discrete (3 ∷ []) p)
              (some 100)
              (recent 100 (get bytes_discrete p node.active_peers)))
    × IsUnique bytes_discrete n'.active_peers
    × (n' ≡ record node { active_peers = n'.active_peers })
handle_heartbeat_lem_example =
    handle_heartbeat_lem texts (3 ∷ []) (3 ∷ []) 100 node refl peers-IsPast listed_once
