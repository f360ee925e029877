-- ===== src/System.antt =====
-- The node as a system of tasks: src/modules/network.rs spawns a task for every message, and the
-- handlers of src/modules/validation.rs run in stages. A stage is what a handler does between two
-- points at which other tasks may run: while it waits, and where it holds no lock. The wait for the
-- votes may look at its condition at any time, while the code looks when it is notified. The task
-- that adopts the state of the network is left out here: it takes over what the peers send.
pub mod Stable
pub mod Keeps
pub mod Runs
pub mod Invariant
pub mod History
pub mod Refines
pub mod Handlers
pub mod Conforms
mod Tests
use mini_block_chain.Prelude.{
  ℕ, zero, suc, ◌+◌, ◌-◌, ◌*◌, ◌/◌, ◌%◌, ◌^◌, ◌≤◌, ◌<◌, ◌≡◌, refl, sym, ap, ◌∙◌, ◌≢◌, ◌↔◌, ◌⊎◌, inl,
  inr, ite, if_pos, if_neg, Bool, true, false, ◌&&◌, ◌||◌, not, Option, none, some, List, [], ◌∷◌,
  ◌++◌, map, arith, dec_lt, dec_le, ℕ_discrete, ltb, leb, ◌==◌, if◌then◌else◌, Bool-cases,
  Option-cases, length, length-append, length-map, sum, sum-append, All, All-map, count, retain_ne,
  count-append, count-retain_ne, sum_of_count-eq, u64_mod, u32_mod, checked_add, checked_sub,
  sum_u64, in_u64, sum_u64_lem,
}
use mini_block_chain.Bytes.{Bytes, bytes_discrete}
use mini_block_chain.HashMap.{get}
use mini_block_chain.External.{Json, Key, Crypto}
use mini_block_chain.Utxo.{UtxoTransaction}
use mini_block_chain.Utxo.Apply.{Applied, apply_transaction}
use mini_block_chain.Chain.{Block, push_block_to_chain}
use mini_block_chain.Node.{
  PeerLedgerResponse, ValidatorNode, Outcome, done, panicked, waiting, update_active_peer_count,
}
use mini_block_chain.Node.Request.{hash_network_request}
use mini_block_chain.Consensus.{check_all_block_decisions_received, determine_majority}
use mini_block_chain.Ledger.{undisturbed}
use mini_block_chain.Ledger.Accounts.{
  verify_account_creation_independently, add_account_creation_to_ledger,
  verify_faucet_request_independently, add_faucet_request_to_ledger,
}
use mini_block_chain.Ledger.Transfer.{verify_transaction_independently, add_transaction_to_ledger}
use mini_block_chain.Ledger.Spend.{parse_transaction, verify_utxo_transaction_independently}
use mini_block_chain.Dispatch.{Message, asks_for_block, handle_message}

-- The four handlers that ask the peers.
pub data Kind : Type 0 where
  account_creation transaction utxo_transaction faucet : Kind

-- Where a handler is: before its own verification, before it counts its peers, before and in the
-- wait for their votes, before the majority is determined, and before it writes the ledger. A
-- UTXO transaction is written in three stages, since it locks the chain, the set and the chain.
pub data Stage : Type 0 where
  arrived verified counted checking deciding writing : Stage
  spending appending : (tx : UtxoTransaction) (block_height : ℕ) → Stage
  finished failed : Stage

-- The stage after an outcome; no outcome of a single stage is `waiting`.
abbrev pub after : Stage → Stage → Outcome Bool → Stage
after yes_stage no_stage (done true) = yes_stage
after yes_stage no_stage (done false) = no_stage
after yes_stage no_stage panicked = Stage.failed
after yes_stage no_stage waiting = Stage.failed

abbrev pub at_end : Outcome (Unit {0}) → Stage
at_end (done _) = Stage.finished
at_end panicked = Stage.failed
at_end waiting = Stage.failed

-- A task, and the node with its tasks, over a type of JSON values.
pub record Task (Value : Type 0) : Type 0 where
  pub kind : Kind
  pub request : Value
  pub stage : Stage

pub record System (Value : Type 0) : Type 0 where
  pub node : ValidatorNode
  pub tasks : List (Task Value)

module _ {Value : Type 0} (x : Json Value) (c : Crypto) where
  unfoldable pub verify : Kind → Value → ValidatorNode → Stage × ValidatorNode
  verify Kind.account_creation r n = (Stage.verified, verify_account_creation_independently x c r n)
  verify Kind.transaction r n =
      let (outcome, n') = verify_transaction_independently x c r n in
      (after Stage.verified Stage.verified outcome, n')
  verify Kind.utxo_transaction r n =
      let (outcome, n') = verify_utxo_transaction_independently x c r n in
      (after Stage.verified Stage.finished outcome, n')
  verify Kind.faucet r n =
      let (outcome, n') = verify_faucet_request_independently x c r n in
      (after Stage.verified Stage.finished outcome, n')

  -- One look at the condition of the loop of `await_all_block_decisions`.
  unfoldable pub check : Value → ValidatorNode → Stage
  check r n = elim (check_all_block_decisions_received (hash_network_request x c.sha256 r) n) [
    | none ↦ Stage.failed
    | some false ↦ Stage.checking
    | some true ↦ elim (get bytes_discrete (hash_network_request x c.sha256 r) n.peer_decisions) [
      | none ↦ Stage.failed
      | some _ ↦ Stage.deciding
    ]
  ]

  unfoldable pub write : Kind → Value → ℕ → ValidatorNode → Stage × ValidatorNode
  write Kind.account_creation r time n =
      let (outcome, n') = add_account_creation_to_ledger x c r time n in (at_end outcome, n')
  write Kind.transaction r time n =
      let (outcome, n') = add_transaction_to_ledger x c r time n in (at_end outcome, n')
  write Kind.faucet r time n =
      let (outcome, n') = add_faucet_request_to_ledger x c r time n in (at_end outcome, n')
  write Kind.utxo_transaction r time n = elim (parse_transaction x c r) [
    | none ↦ (Stage.failed, n)
    | some tx ↦ (Stage.spending tx (length n.blockchain.chain), n)
  ]

  unfoldable pub spend : UtxoTransaction → ℕ → ValidatorNode → Stage × ValidatorNode
  spend tx height n =
      let (utxo_set, result) = apply_transaction tx height n.utxo_set in
      elim result [
        | Applied.not_found _ ↦ (Stage.finished, n)
        | Applied.ok ↦ (Stage.appending tx height, record n { utxo_set = utxo_set })
      ]

  unfoldable pub append_block : UtxoTransaction → ℕ → ValidatorNode → Stage × ValidatorNode
  append_block tx height n =
      elim (push_block_to_chain c.sha256 (Block.utxo_transaction tx height []) n.blockchain) [
        | none ↦ (Stage.failed, n)
        | some chain ↦ (Stage.finished, record n { blockchain = chain })
      ]

  -- One stage of a handler, at the time that the clock gives.
  unfoldable pub advance : Kind → Value → ℕ → Stage → ValidatorNode → Stage × ValidatorNode
  advance k r time Stage.arrived n = verify k r n
  advance k r time Stage.verified n = (Stage.counted, update_active_peer_count n)
  advance k r time Stage.counted n =
      (if n.total_peers == 0 then Stage.deciding else Stage.checking, n)
  advance k r time Stage.checking n = (check r n, n)
  advance k r time Stage.deciding n =
      let (outcome, n') = determine_majority x c.sha256 r n in
      (after Stage.writing Stage.finished outcome, n')
  advance k r time Stage.writing n = write k r time n
  advance k r time (Stage.spending tx height) n = spend tx height n
  advance k r time (Stage.appending tx height) n = append_block tx height n
  advance k r time Stage.finished n = (Stage.finished, n)
  advance k r time Stage.failed n = (Stage.failed, n)

  -- One stage of the task with this number, if there is one.
  unfoldable pub run_task :
      ℕ → ℕ → List (Task Value) → ValidatorNode → List (Task Value) × ValidatorNode
  run_task i time [] n = ([], n)
  run_task zero time (t ∷ ts) n =
      let (stage, n') = advance t.kind t.request time t.stage n in
      (record t { stage = stage } ∷ ts, n')
  run_task (suc i) time (t ∷ ts) n = let (ts', n') = run_task i time ts n in (t ∷ ts', n')

  abbrev pub run : ℕ → ℕ → System Value → System Value
  run i time s =
      let (tasks, node) = run_task i time s.tasks s.node in record { node = node; tasks = tasks }

  module _ (parse : Value → Option PeerLedgerResponse) where
    -- A request for a block starts a task; any other message is handled at once; and any task goes
    -- on by one stage.
    pub data Step : System Value → System Value → Type 0 where
      starts :
          (k : Kind) (r : Value) (s : System Value)
          → Step s (record s {
            tasks = s.tasks ++ record { kind = k; request = r; stage = Stage.arrived } ∷ [];
          })
      handles :
          (m : Message) (r : Value) (time : ℕ) (s : System Value)
          → asks_for_block m ≡ false
          → Step s
              (record s { node = (handle_message x c parse m r (undisturbed []) time s.node).1 })
      goes_on : (i time : ℕ) (s : System Value) → Step s (run i time s)

    pub data Reach (s : System Value) : System Value → Type 0 where
      here : Reach s s
      next : {t u : System Value} → Reach s t → Step t u → Reach s u
