-- ===== src/Dispatch.antt =====
-- src/modules/network.rs, `master_events_handler`: each message goes to the handler that its action
-- names. Parsing the bytes as JSON is left to the caller; printing and saving the chain afterwards
-- change no state.
pub mod Messages
mod Tests
use mini_block_chain.Prelude.{
  ℕ, zero, suc, ◌+◌, ◌-◌, ◌*◌, ◌/◌, ◌%◌, ◌^◌, ◌≤◌, ◌<◌, ◌≡◌, refl, sym, ap, ◌∙◌, ◌≢◌, ◌↔◌, ◌⊎◌, inl,
  inr, ite, if_pos, if_neg, Bool, true, false, ◌&&◌, ◌||◌, not, Option, none, some, List, [], ◌∷◌,
  ◌++◌, map, arith, dec_lt, dec_le, ℕ_discrete, ltb, leb, ◌==◌, if◌then◌else◌, Bool-cases,
  Option-cases, length, length-append, length-map, sum, sum-append, All, All-map, count, retain_ne,
  count-append, count-retain_ne, sum_of_count-eq, u64_mod, u32_mod, checked_add, checked_sub,
  sum_u64, in_u64, sum_u64_lem,
}
use mini_block_chain.Bytes.{codes, Bytes, Text, bytes_discrete}
use mini_block_chain.External.{Json, Key, Crypto}
use mini_block_chain.Node.{
  PeerLedgerResponse, ValidatorNode, Outcome, done, panicked, waiting, Action, pure, ◌>>=◌, ◌>>◌,
}
use mini_block_chain.Consensus.{handle_consensus_request, handle_consensus_response, record_vote}
use mini_block_chain.Ledger.{Schedule}
use mini_block_chain.Ledger.Accounts.{handle_account_creation_request, handle_faucet_request}
use mini_block_chain.Ledger.Transfer.{handle_transaction_request}
use mini_block_chain.Ledger.Spend.{handle_utxo_transaction_request}
use mini_block_chain.Heartbeat.{handle_heartbeat}
use mini_block_chain.Adopt.{handle_peer_ledger_request, handle_peer_ledger_response}

pub data Message : Type 0 where
  account_creation : Message
  transaction : Message
  utxo_transaction : Message
  faucet : Message
  consensus_request : Message
  consensus_response : Message
  heart_beat : Message
  peer_ledger_request : Message
  peer_ledger_response : Message
  unrecognized : Message

-- The action texts, in the order of the match.
abbrev actions : List (Text × Message)
actions =
    (codes "AccountCreation", Message.account_creation)
    ∷ (codes "Transaction", Message.transaction)
    ∷ (codes "UTXOTransaction", Message.utxo_transaction)
    ∷ (codes "Faucet", Message.faucet)
    ∷ (codes "ConsensusRequest", Message.consensus_request)
    ∷ (codes "ConsensusResponse", Message.consensus_response)
    ∷ (codes "HeartBeat", Message.heart_beat)
    ∷ (codes "PeerLedgerRequest", Message.peer_ledger_request)
    ∷ (codes "PeerLedgerResponse", Message.peer_ledger_response)
    ∷ []

unfoldable pub first_match : Text → List (Text × Message) → Message
first_match t [] = Message.unrecognized
first_match t ((u, m) ∷ rest) = ite (bytes_discrete u t) m (first_match t rest)

unfoldable pub classify : Option Text → Message
unfolding first_match
classify none = Message.unrecognized
classify (some t) = first_match t actions

-- The messages that ask for a new block.
abbrev pub asks_for_block : Message → Bool
asks_for_block Message.account_creation = true
asks_for_block Message.transaction = true
asks_for_block Message.utxo_transaction = true
asks_for_block Message.faucet = true
asks_for_block _ = false

-- What a handler returns is only printed.
abbrev ignore : {A : Type 0} → Action A → Action (Unit {0})
ignore m = m >>= λ _. pure tt

module _ {Value : Type 0} (x : Json Value) (c : Crypto)
    (parse : Value → Option PeerLedgerResponse) where
  -- The handler of a message, at a schedule of the other tasks and a time.
  unfoldable pub handle_message : Message → Value → Schedule → ℕ → Action (Unit {0})
  handle_message Message.account_creation r s time =
      ignore (handle_account_creation_request x c r s time)
  handle_message Message.transaction r s time = ignore (handle_transaction_request x c r s time)
  handle_message Message.utxo_transaction r s time =
      ignore (handle_utxo_transaction_request x c r s)
  handle_message Message.faucet r s time = handle_faucet_request x c r s time
  handle_message Message.consensus_request r s time = ignore (handle_consensus_request x c.sha256 r)
  handle_message Message.consensus_response r s time = handle_consensus_response x c.sha256 r
  handle_message Message.heart_beat r s time = ignore (handle_heartbeat x r time)
  handle_message Message.peer_ledger_request r s time = ignore (handle_peer_ledger_request x r)
  handle_message Message.peer_ledger_response r s time = handle_peer_ledger_response x parse r
  handle_message Message.unrecognized r s time = pure tt

  unfoldable pub master_events_handler : Value → Schedule → ℕ → Action (Unit {0})
  master_events_handler r s time =
      handle_message (classify (x.as_str (x.index r Key.action))) r s time
