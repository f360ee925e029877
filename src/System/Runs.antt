-- ===== src/System/Runs.antt =====
-- src/modules/network.rs: what every write keeps, each message, each stage of a task and each run of the
-- system keep.
use mini_block_chain.Prelude.{
  ℕ, zero, suc, ◌≡◌, inl, inr, false, not, Option, List, [], ◌∷◌, Option-cases, length,
}
use mini_block_chain.External.{Json, Key, Crypto}
use mini_block_chain.Utxo.{UtxoTransaction}
use mini_block_chain.Utxo.Apply.{apply_transaction}
use mini_block_chain.Chain.{Block, push_block_to_chain}
use mini_block_chain.Node.{PeerLedgerResponse, ValidatorNode, pure, update_active_peer_count}
use mini_block_chain.Consensus.{handle_consensus_request}
use mini_block_chain.Heartbeat.{handle_heartbeat}
use mini_block_chain.Adopt.{handle_peer_ledger_request}
use mini_block_chain.Ledger.{undisturbed}
use mini_block_chain.Ledger.Spend.{parse_transaction}
use mini_block_chain.Ledger.Accounts.{
  verify_account_creation_independently, verify_faucet_request_independently,
}
use mini_block_chain.Dispatch.{Message, asks_for_block, handle_message}
use mini_block_chain.System.{
  Kind, Stage, Task, System, verify, write, spend, append_block, advance, run_task, Step, Reach,
}
use mini_block_chain.System.Stable.{
  IsStable, bind_keeps, creation_keeps, faucet_keeps, transfer_keeps,
}
use mini_block_chain.Node.Request.{str_field}
use mini_block_chain.Merkle.{account_exists}
use mini_block_chain.System.Keeps.{
  Applied-cases, decision_keeps, transaction_keeps, utxo_keeps, response_keeps, heartbeat_keeps,
  reads_only, ledger_keeps,
}

module _ {Value : Type 0} (x : Json Value) (c : Crypto) (P : ValidatorNode → Type 0)
    (stable : IsStable c P) where
  creation_judged :
      (r : Value) (n : ValidatorNode) → P n → P (verify_account_creation_independently x c r n)
  unfolding verify_account_creation_independently
  creation_judged r n h =
      decision_keeps x c P stable r
        (not (account_exists (str_field x Key.public_key r) n.merkle_tree)) n h

  faucet_judged :
      (r : Value) (n : ValidatorNode) → P n → P (verify_faucet_request_independently x c r n).1
  unfolding verify_faucet_request_independently
  faucet_judged r n h =
      decision_keeps x c P stable r (account_exists (str_field x Key.public_key r) n.merkle_tree) n
        h

  verify_keeps : (k : Kind) (r : Value) (n : ValidatorNode) → P n → P (verify x c k r n).1
  unfolding verify
  verify_keeps Kind.account_creation r n h = creation_judged r n h
  verify_keeps Kind.transaction r n h = transaction_keeps x c P stable r n h
  verify_keeps Kind.utxo_transaction r n h = utxo_keeps x c P stable r n h
  verify_keeps Kind.faucet r n h = faucet_judged r n h

  write_keeps :
      (k : Kind) (r : Value) (time : ℕ) (n : ValidatorNode) → P n → P (write x c k r time n).1
  unfolding write
  write_keeps Kind.account_creation r time n h = creation_keeps x c P stable r time n h
  write_keeps Kind.transaction r time n h = transfer_keeps x c P stable r time n h
  write_keeps Kind.faucet r time n h = faucet_keeps x c P stable r time n h
  write_keeps Kind.utxo_transaction r time n h = elim (Option-cases (parse_transaction x c r)) [
    | inl e ↦ rw (e, write) h
    | inr (tx, e) ↦ rw (e, write) h
  ]

  spend_keeps :
      (tx : UtxoTransaction) (height : ℕ) (n : ValidatorNode) → P n → P (spend x c tx height n).1
  unfolding spend
  spend_keeps tx height n h = elim (Applied-cases (apply_transaction tx height n.utxo_set).1) [
    | inl e ↦ rw (e, spend) (stable.spends tx height n h)
    | inr (o, e) ↦ rw (e, spend) h
  ]

  append_keeps :
      (tx : UtxoTransaction) (height : ℕ) (n : ValidatorNode)
      → P n
      → P (append_block x c tx height n).1
  unfolding append_block
  append_keeps tx height n h =
      elim (Option-cases
        (push_block_to_chain c.sha256 (Block.utxo_transaction tx height []) n.blockchain)) [
          | inl e ↦ rw (e, append_block) h
          | inr (chain, e) ↦
              rw (e, append_block) (stable.pushes (Block.utxo_transaction tx height []) chain n e h)
        ]

  advance_keeps :
      (k : Kind) (r : Value) (time : ℕ) (stage : Stage) (n : ValidatorNode)
      → P n
      → P (advance x c k r time stage n).1
  unfolding advance update_active_peer_count
  advance_keeps k r time Stage.arrived n h = verify_keeps k r n h
  advance_keeps k r time Stage.verified n h = stable.totals (length n.active_peers) n h
  advance_keeps k r time Stage.counted n h = h
  advance_keeps k r time Stage.checking n h = h
  advance_keeps k r time Stage.deciding n h = rw (reads_only x c P stable r n).2 h
  advance_keeps k r time Stage.writing n h = write_keeps k r time n h
  advance_keeps k r time (Stage.spending tx height) n h = spend_keeps tx height n h
  advance_keeps k r time (Stage.appending tx height) n h = append_keeps tx height n h
  advance_keeps k r time Stage.finished n h = h
  advance_keeps k r time Stage.failed n h = h

  run_task_keeps :
      (i time : ℕ) (ts : List (Task Value)) (n : ValidatorNode)
      → P n
      → P (run_task x c i time ts n).1
  unfolding run_task
  run_task_keeps i time [] n h = h
  run_task_keeps zero time (t ∷ ts) n h = advance_keeps t.kind t.request time t.stage n h
  run_task_keeps (suc i) time (t ∷ ts) n h = run_task_keeps i time ts n h

  module _ (parse : Value → Option PeerLedgerResponse) where
    message_keeps :
        (m : Message) (r : Value) (time : ℕ) (n : ValidatorNode)
        → asks_for_block m ≡ false
        → P n
        → P (handle_message x c parse m r (undisturbed []) time n).1
    unfolding handle_message
    message_keeps Message.account_creation r time n e h = cc
    message_keeps Message.transaction r time n e h = cc
    message_keeps Message.utxo_transaction r time n e h = cc
    message_keeps Message.faucet r time n e h = cc
    message_keeps Message.consensus_request r time n e h =
        bind_keeps P (handle_consensus_request x c.sha256 r) (λ _. pure tt) n
          (rw (reads_only x c P stable r n).0 h) (λ _ n' h'. h')
    message_keeps Message.consensus_response r time n e h = response_keeps x c P stable r n h
    message_keeps Message.heart_beat r time n e h =
        bind_keeps P (handle_heartbeat x r time) (λ _. pure tt) n
          (heartbeat_keeps x c P stable r time n h) (λ _ n' h'. h')
    message_keeps Message.peer_ledger_request r time n e h =
        bind_keeps P (handle_peer_ledger_request x r) (λ _. pure tt) n
          (rw (reads_only x c P stable r n).1 h) (λ _ n' h'. h')
    message_keeps Message.peer_ledger_response r time n e h = ledger_keeps x c P stable parse r n h
    message_keeps Message.unrecognized r time n e h = h

    step_keeps : {s t : System Value} → Step x c parse s t → P s.node → P t.node
    step_keeps (Step.starts k r s) h = h
    step_keeps (Step.handles m r time s e) h = message_keeps m r time s.node e h
    step_keeps (Step.goes_on i time s) h = run_task_keeps i time s.tasks s.node h

    -- What every write keeps, every run of the system keeps.
    pub Reach_keeps : {s t : System Value} → Reach x c parse s t → P s.node → P t.node
    Reach_keeps Reach.here h = h
    Reach_keeps (Reach.next w step) h = step_keeps step (Reach_keeps w h)
