-- ===== src/Consensus/Tests.antt =====
-- Examples of the vote: three peers on a request, and rounds that are over before they begin.
use mini_block_chain.Prelude.{◌<◌, ◌+◌, u32_mod, ◌≡◌, refl, true, false, none, some, [], ◌∷◌, arith}
use mini_block_chain.Bytes.{Bytes, bytes_discrete}
use mini_block_chain.HashMap.{get}
use mini_block_chain.Node.{ValidatorNode, waiting, new}
use mini_block_chain.Consensus.{await_all_block_decisions}
use mini_block_chain.Consensus.Waiting.{
  votes_on_record, arrivals, about, meets, await_all_block_decisions_lem,
}

abbrev request : Bytes
request = 4 ∷ []

-- A node with its own vote and three peers.
abbrev asked : ValidatorNode
asked = record (new 0) { client_decisions = (request, false) ∷ []; total_peers = 3 }

-- The same node after two votes for and one against.
abbrev answered : ValidatorNode
answered = record asked { peer_decisions = (request, (2, 1)) ∷ [] }

-- The same votes, when one of the peers has left.
abbrev shrunk : ValidatorNode
shrunk = record answered { total_peers = 2 }

own_vote : get bytes_discrete request asked.client_decisions ≡ some false
unfolding get bytes_discrete
own_vote = refl

no_votes : get bytes_discrete request asked.peer_decisions ≡ none
unfolding get new
no_votes = refl

too_many : votes_on_record request shrunk + about request ((request, true) ∷ []) < u32_mod
unfolding get bytes_discrete
too_many = omega arith

await_all_block_decisions_lem_example :
    (await_all_block_decisions request (arrivals ((request, true) ∷ [])) shrunk).0
    ≡ meets 2
        (votes_on_record request shrunk)
        (votes_on_record request shrunk + about request ((request, true) ∷ []))
await_all_block_decisions_lem_example =
    await_all_block_decisions_lem request ((request, true) ∷ []) shrunk (omega arith) too_many

still_waiting :
    (await_all_block_decisions request (arrivals ((request, true) ∷ [])) shrunk).0 ≡ waiting
unfolding get bytes_discrete
still_waiting = ground (arith, await_all_block_decisions_lem_example)
