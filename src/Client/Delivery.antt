-- ===== src/Client/Delivery.antt =====
-- src/modules/requests.rs: to which nodes a request is written, and the requests that a node sends.
use mini_block_chain.Prelude.{
  ◌+◌, ◌<◌, u32_mod, ◌≡◌, refl, ite, ap, Bool, Option, some, none, List, [], ◌∷◌, arith,
  if◌then◌else◌, All,
}
use mathlib.Core.Option
use mini_block_chain.Bytes.{Bytes, Text, bytes_discrete, codes}
use mini_block_chain.External.{Json, Key, Crypto}
use mini_block_chain.HashMap.{get}
use mini_block_chain.Node.{ValidatorNode, done}
use mini_block_chain.Node.Request.{hash_network_request}
use mini_block_chain.Consensus.{
  Answer, handle_consensus_request, handle_consensus_response, record_vote, request_hash_field,
  votes_of,
}
use mini_block_chain.Consensus.Votes.{record_vote_lem}
use mini_block_chain.Client.{NetworkRequest, Field, Carried, Carries}
use mini_block_chain.Client.Reading.{bytes_of-some, consensus_read_back}
use mini_block_chain.Client.Ports.{PortConfig, Config, address_of}

-- What is written, in order: an address and a request. Connecting is a parameter; a request that
-- cannot be delivered is dropped.
abbrev pub Deliveries : Type 0
Deliveries = List (Text × NetworkRequest)

module _ (connects : Text → Bool) where
  unfoldable pub write_to_all : NetworkRequest → List PortConfig → Deliveries
  write_to_all r [] = []
  write_to_all r (p ∷ ps) =
      let rest = write_to_all r ps in
      if connects (address_of p) then (address_of p, r) ∷ rest else rest

  -- `none` is the panic on a file of ports that cannot be read or parsed.
  unfoldable pub send_json_request_to_all_ports : NetworkRequest → Config → Option Deliveries
  send_json_request_to_all_ports r (Config.nodes ps) = some (write_to_all r ps)
  send_json_request_to_all_ports r Config.unreadable = none
  send_json_request_to_all_ports r Config.unparsable = none

  unfoldable pub write_to_others : Text → NetworkRequest → List PortConfig → Deliveries
  write_to_others client_port r [] = []
  write_to_others client_port r (p ∷ ps) =
      let rest = write_to_others client_port r ps in
      ite (bytes_discrete client_port (address_of p)) rest
        (if connects (address_of p) then (address_of p, r) ∷ rest else rest)

  unfoldable pub send_json_request_to_other_nodes :
      Text → NetworkRequest → Config → Option Deliveries
  send_json_request_to_other_nodes client_port r (Config.nodes ps) =
      some (write_to_others client_port r ps)
  send_json_request_to_other_nodes client_port r Config.unreadable = none
  send_json_request_to_other_nodes client_port r Config.unparsable = none

  -- All deliveries but those to one address.
  unfoldable pub but_to : Text → Deliveries → Deliveries
  but_to port [] = []
  but_to port ((a, r) ∷ ds) = ite (bytes_discrete port a) (but_to port ds) ((a, r) ∷ but_to port ds)

  write_to_others_lem :
      (client_port : Text) (r : NetworkRequest) (ps : List PortConfig)
      → write_to_others client_port r ps ≡ but_to client_port (write_to_all r ps)
  unfolding write_to_others write_to_all but_to
  write_to_others_lem client_port r [] = refl
  write_to_others_lem client_port r (p ∷ ps) = ground (arith, write_to_others_lem client_port r ps)

  -- What is sent to the other nodes is what would be sent to all, in the same order, without the
  -- deliveries to the node's own address; and both panic on the same files of ports.
  pub send_to_others_lem :
      (client_port : Text) (r : NetworkRequest) (config : Config)
      → send_json_request_to_other_nodes client_port r config
        ≡ Option.map (but_to client_port) (send_json_request_to_all_ports r config)
  unfolding send_json_request_to_other_nodes send_json_request_to_all_ports
  send_to_others_lem client_port r (Config.nodes ps) =
      ap (λ (ds : Deliveries). some ds) (write_to_others_lem client_port r ps)
  send_to_others_lem client_port r Config.unreadable = refl
  send_to_others_lem client_port r Config.unparsable = refl

  unfoldable pub send_peer_ledger_request : ValidatorNode → Config → Option Deliveries
  send_peer_ledger_request n =
      send_json_request_to_other_nodes n.client_port_address
        (NetworkRequest.peer_ledger_request n.client_port_address)

  unfoldable pub send_heartbeat_request : ValidatorNode → Config → Option Deliveries
  send_heartbeat_request n =
      send_json_request_to_other_nodes n.client_port_address
        (NetworkRequest.heart_beat n.client_port_address)

module _ {Value : Type 0} (x : Json Value) (c : Crypto) where
  -- The question that a node asks about a request.
  abbrev pub question : Value → ValidatorNode → NetworkRequest
  question r n =
      NetworkRequest.consensus_request (hash_network_request x c.sha256 r) n.client_port_address

  unfoldable pub send_consensus_request :
      (Text → Bool) → Value → ValidatorNode → Config → Option Deliveries
  send_consensus_request connects r n =
      send_json_request_to_other_nodes connects n.client_port_address (question r n)

  -- A value that is parsed from the JSON text of a `BlockConsensusResponse`.
  abbrev pub CarriesAnswer : Value → Answer → Type 0
  CarriesAnswer w a =
      Carried x (x.index w Key.action) (Field.text (codes "ConsensusResponse"))
      × Carried x (x.index w Key.request_hash) (Field.bytes a.request_hash)
      × (x.as_bool (x.index w Key.decision) ≡ some a.decision)

  -- A node asks about a request, and a peer that has decided on it reads the question: the peer
  -- answers with its decision, to the node's address, and changes nothing. If the node has fewer
  -- than 2 ^ 32 - 1 votes on the request so far, then, when it reads the answer, it has one more in
  -- favour if the peer's decision was in favour and else one more against, its votes on every other
  -- request stay, and so does its own decision. The hash consists of bytes.
  pub question_and_answer :
      (r v w : Value) (asker peer : ValidatorNode) (decision : Bool)
      → let hash : Bytes = hash_network_request x c.sha256 r in
        let answer : Answer = record {
          request_hash = hash;
          decision = decision;
          response_port = asker.client_port_address;
        } in
        All (λ b. b < 256) hash
        → Carries x v (question r asker)
        → get bytes_discrete hash peer.client_decisions ≡ some decision
        → CarriesAnswer w answer
        → (votes_of hash asker).0 + (votes_of hash asker).1 + 1 < u32_mod
        → let (outcome, asker') = handle_consensus_response x c.sha256 w asker in
          let (in_favour, against) = votes_of hash asker in
          (handle_consensus_request x c.sha256 v peer ≡ (done answer, peer))
          × (outcome ≡ done tt)
          × ((h : Bytes)
              → votes_of h asker'
                ≡ ite
                    (bytes_discrete hash h)
                    (if decision then (in_favour + 1, against) else (in_favour, against + 1))
                    (votes_of h asker))
          × (asker'.client_decisions ≡ asker.client_decisions)
  unfolding handle_consensus_request handle_consensus_response request_hash_field
  question_and_answer r v w asker peer decision b h d (_, (vs, e, f), j) l =
      let hash : Bytes = hash_network_request x c.sha256 r in
      let asked = consensus_read_back x c v hash asker.client_port_address b h in
      let read : handle_consensus_response x c.sha256 w asker ≡ record_vote hash decision asker =
        ground (arith, e, j, bytes_of-some x c vs hash b f) in
      (
        ground (arith, asked, d, h.1.1.0),
        rw read (record_vote_lem hash hash decision asker l).0,
        (λ h'. rw read (ground (arith, (record_vote_lem hash h' decision asker l).1))),
        rw read (record_vote_lem hash hash decision asker l).3,
      )
