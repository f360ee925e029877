-- ===== src/System/Conforms.antt =====
-- src/modules/validation.rs: the four handlers that ask the peers, whole, as runs of their stages.
use mini_block_chain.Prelude.{ℕ, Bool, true, false, All}
use mini_block_chain.External.{Json, Crypto}
use mini_block_chain.Node.{ValidatorNode, Action, Env, pure, ◌>>=◌, ◌>>◌, update}
use mini_block_chain.Ledger.{Schedule, consult}
use mini_block_chain.Ledger.Accounts
use mini_block_chain.Ledger.Accounts.{
  verify_account_creation_independently, add_account_creation_to_ledger,
  handle_account_creation_request, verify_faucet_request_independently,
  add_faucet_request_to_ledger, handle_faucet_request,
}
use mini_block_chain.Ledger.Transfer.{
  verify_transaction_independently, add_transaction_to_ledger, handle_transaction_request,
}
use mini_block_chain.Ledger.Spend.{
  handle_utxo_transaction_request, verify_utxo_transaction_independently,
  add_utxo_transaction_to_ledger,
}
use mini_block_chain.System.{Kind, Stage, verify, advance}
use mini_block_chain.System.Refines.{
  ends_in, steps_of, Run, Realizes, bind-Realizes, then-Realizes, after_decision, consult-Realizes,
}
use mini_block_chain.System.Handlers.{
  always, judged, write_creation, write_transfer, write_faucet, write_utxo, verify_transfer,
  verify_utxo, verify_faucet,
}

module _ {Value : Type 0} (x : Json Value) (c : Crypto) (Other : Env → Type 0) (r : Value)
    (s : Schedule) (o : All Other (steps_of s)) where
  abbrev chosen : {A : Type 0} → A → Action A → Bool → Action A
  chosen refused accepted agreed = elim agreed [ false ↦ pure refused | true ↦ accepted ]

  chosen-Realizes :
      {A : Type 0} (k : Kind) (refused : A) (accepted : Action A)
      → Realizes x c k r Other Stage.writing (always Stage.finished) accepted
      → (agreed : Bool)
      → Realizes x c k r Other
          (after_decision x c k r Other agreed)
          (always Stage.finished)
          (chosen refused accepted agreed)
  chosen-Realizes k refused accepted h true = h
  chosen-Realizes k refused accepted h false = λ n. Run.rests

  -- A consultation, and then a write if it agrees.
  consult_then :
      {A : Type 0} (k : Kind) (refused : A) (accepted : Action A)
      → Realizes x c k r Other Stage.writing (always Stage.finished) accepted
      → Realizes x c k r Other Stage.verified
          (always Stage.finished)
          (consult x c r s >>= chosen refused accepted)
  consult_then k refused accepted h =
      bind-Realizes x c k r Other (after_decision x c k r Other) (always Stage.finished)
        (consult x c r s) (chosen refused accepted) (consult-Realizes x c k r Other s o)
        (chosen-Realizes k refused accepted h)

  and_then :
      {A : Type 0} (k : Kind) (a : A) (m : Action (Unit {0}))
      → Realizes x c k r Other Stage.writing (always Stage.finished) m
      → Realizes x c k r Other Stage.writing (always Stage.finished) (m >> pure a)
  and_then k a m h =
      then-Realizes x c k r Other Stage.finished (always Stage.finished) m (pure a) h
        (λ n. Run.rests)

  abbrev create : ℕ → Action Accounts.Reply
  create time = add_account_creation_to_ledger x c r time >> pure Accounts.Reply.accepted

  creation_runs :
      (time : ℕ)
      → Realizes x c Kind.account_creation r Other Stage.arrived
          (always Stage.finished)
          (handle_account_creation_request x c r s time)
  unfolding handle_account_creation_request advance verify
  creation_runs time =
      then-Realizes x c Kind.account_creation r Other Stage.verified (always Stage.finished)
        (update (verify_account_creation_independently x c r))
        (consult x c r s >>= chosen Accounts.Reply.invalid_request (create time))
        (λ n. Run.goes_on 0 Run.rests)
        (consult_then Kind.account_creation Accounts.Reply.invalid_request (create time) (
          and_then Kind.account_creation Accounts.Reply.accepted
            (add_account_creation_to_ledger x c r time) (write_creation x c Other r time)))

  abbrev transfer : ℕ → Action Bool
  transfer time = add_transaction_to_ledger x c r time >> pure true

  any_verdict :
      (b : Bool)
      → Realizes x c Kind.transaction r Other
          (judged Stage.verified b)
          (always Stage.verified)
          (pure tt)
  any_verdict true = λ n. Run.rests
  any_verdict false = λ n. Run.rests

  transaction_runs :
      (time : ℕ)
      → Realizes x c Kind.transaction r Other Stage.arrived
          (always Stage.finished)
          (handle_transaction_request x c r s time)
  unfolding handle_transaction_request
  transaction_runs time =
      then-Realizes x c Kind.transaction r Other Stage.verified (always Stage.finished)
        (verify_transaction_independently x c r >>= λ _. pure tt)
        (consult x c r s >>= chosen false (transfer time))
        (bind-Realizes x c Kind.transaction r Other (judged Stage.verified) (always Stage.verified)
          (verify_transaction_independently x c r) (λ _. pure tt) (verify_transfer x c Other r)
          any_verdict)
        (consult_then Kind.transaction false (transfer time) (
          and_then Kind.transaction true (add_transaction_to_ledger x c r time)
            (write_transfer x c Other r time)))

  valid-Realizes :
      {A : Type 0} (k : Kind) (refused : A) (m : Action A)
      → Realizes x c k r Other Stage.verified (always Stage.finished) m
      → (valid : Bool)
      → Realizes x c k r Other
          (judged Stage.finished valid)
          (always Stage.finished)
          (chosen refused m valid)
  valid-Realizes k refused m h true = h
  valid-Realizes k refused m h false = λ n. Run.rests

  faucet_runs :
      (time : ℕ)
      → Realizes x c Kind.faucet r Other Stage.arrived
          (always Stage.finished)
          (handle_faucet_request x c r s time)
  unfolding handle_faucet_request
  faucet_runs time =
      let grants = consult x c r s >>= chosen tt (add_faucet_request_to_ledger x c r time) in
      bind-Realizes x c Kind.faucet r Other (judged Stage.finished) (always Stage.finished)
        (verify_faucet_request_independently x c r) (chosen tt grants) (verify_faucet x c Other r)
        (valid-Realizes Kind.faucet tt grants (
          consult_then Kind.faucet tt (add_faucet_request_to_ledger x c r time)
            (write_faucet x c Other r time)))

  utxo_runs :
      Realizes x c Kind.utxo_transaction r Other Stage.arrived
        (always Stage.finished)
        (handle_utxo_transaction_request x c r s)
  unfolding handle_utxo_transaction_request
  utxo_runs =
      let pays : Action Bool = add_utxo_transaction_to_ledger x c r s >> pure true in
      let asks = consult x c r s >>= chosen false pays in
      bind-Realizes x c Kind.utxo_transaction r Other (judged Stage.finished)
        (always Stage.finished) (verify_utxo_transaction_independently x c r) (chosen false asks)
        (verify_utxo x c Other r)
        (valid-Realizes Kind.utxo_transaction false asks (
          consult_then Kind.utxo_transaction false pays (
            and_then Kind.utxo_transaction true (add_utxo_transaction_to_ledger x c r s)
              (write_utxo x c Other r s o.1.1.1.1.0 o.1.1.1.1.1.0))))

  -- Each of the four handlers that ask the peers, whole, is a run of its own stages in their
  -- order, with no other interference than the steps of its schedule: it ends in the stage
  -- `finished` where it returns, in `failed` where it panics, and in `checking` where it still
  -- waits for votes.
  pub handlers_conform :
      (time : ℕ) (n : ValidatorNode)
      → (let (outcome, n') = handle_account_creation_request x c r s time n in
          Run x c Kind.account_creation r Other Stage.arrived n
            (ends_in (always Stage.finished) outcome)
            n')
        × (let (outcome, n') = handle_transaction_request x c r s time n in
            Run x c Kind.transaction r Other Stage.arrived n
              (ends_in (always Stage.finished) outcome)
              n')
        × (let (outcome, n') = handle_utxo_transaction_request x c r s n in
            Run x c Kind.utxo_transaction r Other Stage.arrived n
              (ends_in (always Stage.finished) outcome)
              n')
        × (let (outcome, n') = handle_faucet_request x c r s time n in
            Run x c Kind.faucet r Other Stage.arrived n
              (ends_in (always Stage.finished) outcome)
              n')
  handlers_conform time n =
      (creation_runs time n, transaction_runs time n, utxo_runs n, faucet_runs time n)
