-- ===== src/Dispatch/Messages.antt =====
-- src/modules/network.rs: the messages that ask for no block, and the ledger of the node.
use mini_block_chain.Prelude.{
  ℕ, ◌≡◌, refl, inl, inr, Bool, true, false, Option, List, arith, Option-cases,
}
use mini_block_chain.External.{Json, Key, Crypto}
use mini_block_chain.Node.{PeerLedgerResponse, ValidatorNode}
use mini_block_chain.Consensus.{
  handle_consensus_request, handle_consensus_response, record_vote, request_hash_field,
}
use mini_block_chain.Ledger.{Schedule}
use mini_block_chain.Heartbeat.{handle_heartbeat}
use mini_block_chain.Adopt.{handle_peer_ledger_request, handle_peer_ledger_response}
use mini_block_chain.Dispatch.{
  Message, classify, asks_for_block, handle_message, master_events_handler,
}

-- Two nodes have the same ledger, the same used signatures and the same own decisions.
abbrev pub IsSameLedger : ValidatorNode → ValidatorNode → Type 0
IsSameLedger n n' =
    (n'.blockchain ≡ n.blockchain)
    × (n'.merkle_tree ≡ n.merkle_tree)
    × (n'.utxo_set ≡ n.utxo_set)
    × (n'.used_zk_proofs ≡ n.used_zk_proofs)
    × (n'.client_decisions ≡ n.client_decisions)

module _ {Value : Type 0} (x : Json Value) (c : Crypto)
    (parse : Value → Option PeerLedgerResponse) where
  recorded : (h : List ℕ) (d : Bool) (n : ValidatorNode) → IsSameLedger n (record_vote h d n).1
  unfolding record_vote
  recorded h true n = ground arith
  recorded h false n = ground arith

  answered :
      (r : Value) (n : ValidatorNode) → IsSameLedger n (handle_consensus_response x c.sha256 r n).1
  unfolding handle_consensus_response
  answered r n = elim (Option-cases (request_hash_field x c.sha256 r)) [
    | inl e ↦ ground (arith, e)
    | inr (h, e) ↦ ground (arith, e, recorded h true n, recorded h false n)
  ]

  handled :
      (m : Message) (r : Value) (s : Schedule) (time : ℕ) (n : ValidatorNode)
      → asks_for_block m ≡ false
      → IsSameLedger n (handle_message x c parse m r s time n).1
  unfolding handle_message handle_consensus_request handle_heartbeat handle_peer_ledger_request
      handle_peer_ledger_response
  handled Message.account_creation r s time n e = absurd cc
  handled Message.transaction r s time n e = absurd cc
  handled Message.utxo_transaction r s time n e = absurd cc
  handled Message.faucet r s time n e = absurd cc
  handled Message.consensus_request r s time n e = ground arith
  handled Message.consensus_response r s time n e = answered r n
  handled Message.heart_beat r s time n e = ground arith
  handled Message.peer_ledger_request r s time n e = ground arith
  handled Message.peer_ledger_response r s time n e = ground arith
  handled Message.unrecognized r s time n e = (refl, refl, refl, refl, refl)

  -- A message whose action asks for no block leaves the chain, the accounts, the unspent outputs,
  -- the used signatures and the own decisions as they were, however its handler ends.
  pub master_events_handler-IsSameLedger :
      (r : Value) (s : Schedule) (time : ℕ) (n : ValidatorNode)
      → asks_for_block (classify (x.as_str (x.index r Key.action))) ≡ false
      → IsSameLedger n (master_events_handler x c parse r s time n).1
  unfolding master_events_handler
  master_events_handler-IsSameLedger r s time n e =
      handled (classify (x.as_str (x.index r Key.action))) r s time n e
