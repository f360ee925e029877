-- ===== src/Locks/Routines.antt =====
-- The locks that the functions of src/modules/validation.rs, src/modules/consensus.rs,
-- src/modules/zk_proof.rs and src/modules/adopt_network_state.rs take, in order, on the paths that
-- take the most of them; the arguments choose a path.
use mini_block_chain.Prelude.{ℕ, zero, suc, Bool, List, [], ◌∷◌, ◌++◌, if◌then◌else◌}
use mini_block_chain.Locks.{Lock, Move, take, free, work}

-- A lock that is taken, worked under and given back at once.
abbrev pub under : Lock → List Move
under m = take m ∷ work ∷ free m ∷ []

-- `update_active_peer_count`
abbrev pub peer_count : List Move
peer_count =
    take Lock.active_peers
    ∷ take Lock.total_peers
    ∷ work
    ∷ free Lock.total_peers
    ∷ free Lock.active_peers
    ∷ []

-- `check_all_block_decisions_received`
abbrev pub decisions_check : List Move
decisions_check =
    take Lock.peer_decisions
    ∷ take Lock.total_peers
    ∷ free Lock.total_peers
    ∷ work
    ∷ free Lock.peer_decisions
    ∷ []

abbrev pub decisions_checks : ℕ → List Move
decisions_checks zero = []
decisions_checks (suc looks) = decisions_check ++ decisions_checks looks

-- `await_all_block_decisions`, with a number of looks at its condition.
abbrev pub decisions_wait : ℕ → List Move
decisions_wait looks = under Lock.total_peers ++ decisions_checks looks ++ under Lock.peer_decisions

-- `determine_majority`
abbrev pub majority : List Move
majority =
    take Lock.client_decisions
    ∷ work
    ∷ take Lock.peer_decisions
    ∷ work
    ∷ free Lock.peer_decisions
    ∷ free Lock.client_decisions
    ∷ []

-- `verify_account_creation_independently`, and `verify_faucet_request_independently`, whose locks are
-- the same.
abbrev pub account_verification : List Move
account_verification =
    take Lock.merkle_tree
    ∷ work
    ∷ take Lock.client_decisions
    ∷ work
    ∷ free Lock.client_decisions
    ∷ free Lock.merkle_tree
    ∷ []

-- `verify_transaction_signature`, if the signature holds.
abbrev pub signature_verification : List Move
signature_verification = under Lock.used_zk_proofs

-- `verify_transaction_independently`, with or without the check of a signature.
abbrev pub transaction_verification : Bool → List Move
transaction_verification signed =
    take Lock.client_decisions
      ∷ take Lock.merkle_tree
      ∷ work
      ∷ (if signed then signature_verification else [])
    ++ work ∷ free Lock.merkle_tree ∷ free Lock.client_decisions ∷ []

-- The signatures of a number of inputs.
abbrev pub signature_verifications : ℕ → List Move
signature_verifications zero = []
signature_verifications (suc inputs) = signature_verification ++ signature_verifications inputs

-- `verify_utxo_transaction_independently`: the decision is stored if every input is valid.
abbrev pub utxo_verification : ℕ → Bool → List Move
utxo_verification inputs valid =
    take Lock.utxo_set ∷ work ∷ signature_verifications inputs
    ++ ((if valid then under Lock.client_decisions else []) ++ free Lock.utxo_set ∷ [])

-- `add_account_creation_to_ledger`, `add_transaction_to_ledger` and `add_faucet_request_to_ledger`
abbrev pub account_write : List Move
account_write =
    take Lock.merkle_tree
    ∷ work
    ∷ take Lock.blockchain
    ∷ work
    ∷ free Lock.blockchain
    ∷ free Lock.merkle_tree
    ∷ []

-- `add_utxo_transaction_to_ledger`: the block is pushed if the transaction applies.
abbrev pub utxo_write : Bool → List Move
utxo_write applies =
    under Lock.blockchain ++ under Lock.utxo_set ++ (if applies then under Lock.blockchain else [])

-- `handle_consensus_request`
abbrev pub consensus_request : List Move
consensus_request = under Lock.client_decisions

-- `handle_consensus_response`
abbrev pub consensus_response : List Move
consensus_response = under Lock.peer_decisions

-- `handle_heartbeat`
abbrev pub heartbeat : List Move
heartbeat = under Lock.active_peers

-- `handle_peer_ledger_response`
abbrev pub ledger_response : List Move
ledger_response = under Lock.peer_ledger_states

-- `print_chain` and then `save_chain_json`, after each message.
abbrev pub chain_output : List Move
chain_output = under Lock.blockchain ++ under Lock.blockchain

abbrev pub ledgers_checks : ℕ → List Move
ledgers_checks zero = []
ledgers_checks (suc looks) = under Lock.peer_ledger_states ++ ledgers_checks looks

-- `await_all_peer_ledger_states_received`, with a number of looks at its condition.
abbrev pub ledgers_wait : ℕ → List Move
ledgers_wait looks = under Lock.total_peers ++ ledgers_checks looks

-- `handle_peer_ledger_request`
abbrev pub ledger_request : List Move
ledger_request =
    take Lock.blockchain
    ∷ take Lock.merkle_tree
    ∷ take Lock.used_zk_proofs
    ∷ free Lock.used_zk_proofs
    ∷ work
    ∷ free Lock.merkle_tree
    ∷ free Lock.blockchain
    ∷ []

-- `adopt_majority`, where there are states to choose from.
abbrev pub adoption : List Move
adoption =
    take Lock.peer_ledger_states
    ∷ work
    ∷ take Lock.blockchain
    ∷ take Lock.merkle_tree
    ∷ take Lock.used_zk_proofs
    ∷ work
    ∷ free Lock.used_zk_proofs
    ∷ free Lock.merkle_tree
    ∷ free Lock.blockchain
    ∷ free Lock.peer_ledger_states
    ∷ []
