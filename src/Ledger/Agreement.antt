-- ===== src/Ledger/Agreement.antt =====
-- src/modules/validation.rs, the part that all handlers share: the round of votes on a request.
use mini_block_chain.Prelude.{
  ◌+◌, ◌*◌, ◌<◌, ◌≡◌, Bool, none, some, List, ◌∷◌, map, arith, ltb, length, u32_mod,
}
use mini_block_chain.Bytes.{bytes_discrete}
use mini_block_chain.HashMap.{get}
use mini_block_chain.External.{Json, Crypto}
use mini_block_chain.Node.{ValidatorNode, done, update_active_peer_count}
use mini_block_chain.Node.Request.{hash_network_request}
use mini_block_chain.Consensus.{determine_majority}
use mini_block_chain.Consensus.Votes.{vote_arrives, ayes, round_of_votes}
use mini_block_chain.Ledger.{undisturbed, consult}

module _ {Value : Type 0} (x : Json Value) (c : Crypto) where
  -- The round of a request on which the node has decided, no peer has voted yet, and each of the
  -- active peers, fewer than 2 ^ 32 - 1, votes once: the handler goes on, with the answer whether
  -- more than half of all votes, the node's own among them, are in favour.
  pub consult_lem :
      (r : Value) (own : Bool) (ds : List Bool) (n : ValidatorNode)
      → get bytes_discrete (hash_network_request x c.sha256 r) n.client_decisions ≡ some own
      → get bytes_discrete (hash_network_request x c.sha256 r) n.peer_decisions ≡ none
      → length ds ≡ length n.active_peers
      → length n.active_peers + 1 < u32_mod
      → (consult x c r
          (undisturbed (map (vote_arrives (hash_network_request x c.sha256 r)) ds))
          n).0
        ≡ done (ltb (length (own ∷ ds)) (2 * ayes (own ∷ ds)))
  unfolding consult determine_majority update_active_peer_count
  consult_lem r own ds n mine fresh l b = ground (
    arith,
    round_of_votes (hash_network_request x c.sha256 r) own ds (update_active_peer_count n) mine
        fresh l b,
  )
