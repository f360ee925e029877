-- ===== src/System/Handlers.antt =====
-- src/modules/validation.rs: the four handlers that ask the peers, each as a run of its stages.
use mini_block_chain.Prelude.{
  ℕ, ◌≡◌, refl, ◌≢◌, inl, inr, Bool, true, false, [], arith, Option-cases, length,
}
use mini_block_chain.External.{Json, Crypto}
use mini_block_chain.Utxo.Apply.{apply_transaction}
use mini_block_chain.Chain.{Block, push_block_to_chain}
use mini_block_chain.Node.{ValidatorNode, Outcome, done, panicked, waiting, Env}
use mini_block_chain.Ledger.{Schedule}
use mini_block_chain.Ledger.Accounts.{
  add_account_creation_to_ledger, verify_faucet_request_independently, add_faucet_request_to_ledger,
}
use mini_block_chain.Ledger.Transfer.{
  move_balances, verify_transaction_independently, add_transaction_to_ledger,
}
use mini_block_chain.Ledger.Verdict.{verify_transaction_independently_lem}
use mini_block_chain.Ledger.Spend.{
  parse_transaction, judge_utxo_transaction, verify_utxo_transaction_independently,
  add_utxo_transaction_to_ledger,
}
use mini_block_chain.System.{
  Kind, Stage, after, at_end, verify, write, spend, append_block, advance,
}
use mini_block_chain.System.Keeps.{Applied-cases}
use mini_block_chain.System.Refines.{ends_in, Run, join, one, Realizes}

abbrev pub always : {A : Type 0} → Stage → A → Stage
always s _ = s

-- An outcome that is no wait ends in the stage that follows it.
ended_write : (o : Outcome (Unit {0})) → o ≢ waiting → at_end o ≡ ends_in (always Stage.finished) o
ended_write (done _) h = refl
ended_write panicked h = refl
ended_write waiting h = elim (h refl) [ ]

abbrev pub judged : Stage → Bool → Stage
judged otherwise true = Stage.verified
judged otherwise false = otherwise

ended_verdict :
    (otherwise : Stage) (o : Outcome Bool)
    → o ≢ waiting
    → after Stage.verified otherwise o ≡ ends_in (judged otherwise) o
ended_verdict otherwise (done true) h = refl
ended_verdict otherwise (done false) h = refl
ended_verdict otherwise panicked h = refl
ended_verdict otherwise waiting h = elim (h refl) [ ]

module _ {Value : Type 0} (x : Json Value) (c : Crypto) where
  creation_ends :
      (r : Value) (time : ℕ) (n : ValidatorNode)
      → (add_account_creation_to_ledger x c r time n).0 ≢ waiting
  unfolding add_account_creation_to_ledger
  creation_ends r time n = ground arith

  faucet_ends :
      (r : Value) (time : ℕ) (n : ValidatorNode)
      → (add_faucet_request_to_ledger x c r time n).0 ≢ waiting
  unfolding add_faucet_request_to_ledger
  faucet_ends r time n = ground arith

  transfer_ends :
      (r : Value) (time : ℕ) (n : ValidatorNode)
      → (add_transaction_to_ledger x c r time n).0 ≢ waiting
  unfolding add_transaction_to_ledger move_balances
  transfer_ends r time n = ground arith

  utxo_ends :
      (r : Value) (n : ValidatorNode) → (verify_utxo_transaction_independently x c r n).0 ≢ waiting
  unfolding verify_utxo_transaction_independently judge_utxo_transaction
  utxo_ends r n = ground arith

  module _ (Other : Env → Type 0) where
    pub write_creation :
        (r : Value) (time : ℕ)
        → Realizes x c Kind.account_creation r Other Stage.writing
            (always Stage.finished)
            (add_account_creation_to_ledger x c r time)
    unfolding advance write
    write_creation r time n =
        one x c Kind.account_creation r Other time Stage.writing
          (ends_in (always Stage.finished) (add_account_creation_to_ledger x c r time n).0) n
          (add_account_creation_to_ledger x c r time n).1
          (ended_write (add_account_creation_to_ledger x c r time n).0 (creation_ends r time n))
          refl

    pub write_transfer :
        (r : Value) (time : ℕ)
        → Realizes x c Kind.transaction r Other Stage.writing
            (always Stage.finished)
            (add_transaction_to_ledger x c r time)
    unfolding advance write
    write_transfer r time n =
        one x c Kind.transaction r Other time Stage.writing
          (ends_in (always Stage.finished) (add_transaction_to_ledger x c r time n).0) n
          (add_transaction_to_ledger x c r time n).1
          (ended_write (add_transaction_to_ledger x c r time n).0 (transfer_ends r time n)) refl

    pub write_faucet :
        (r : Value) (time : ℕ)
        → Realizes x c Kind.faucet r Other Stage.writing
            (always Stage.finished)
            (add_faucet_request_to_ledger x c r time)
    unfolding advance write
    write_faucet r time n =
        one x c Kind.faucet r Other time Stage.writing
          (ends_in (always Stage.finished) (add_faucet_request_to_ledger x c r time n).0) n
          (add_faucet_request_to_ledger x c r time n).1
          (ended_write (add_faucet_request_to_ledger x c r time n).0 (faucet_ends r time n)) refl

    pub verify_transfer :
        (r : Value)
        → Realizes x c Kind.transaction r Other Stage.arrived
            (judged Stage.verified)
            (verify_transaction_independently x c r)
    unfolding advance verify
    verify_transfer r n =
        let (e, _, _) = verify_transaction_independently_lem x c r n in
        one x c Kind.transaction r Other 0 Stage.arrived
          (ends_in (judged Stage.verified) (verify_transaction_independently x c r n).0) n
          (verify_transaction_independently x c r n).1
          (ended_verdict Stage.verified (verify_transaction_independently x c r n).0
            (ground (arith, e)))
          refl

    pub verify_utxo :
        (r : Value)
        → Realizes x c Kind.utxo_transaction r Other Stage.arrived
            (judged Stage.finished)
            (verify_utxo_transaction_independently x c r)
    unfolding advance verify
    verify_utxo r n =
        one x c Kind.utxo_transaction r Other 0 Stage.arrived
          (ends_in (judged Stage.finished) (verify_utxo_transaction_independently x c r n).0) n
          (verify_utxo_transaction_independently x c r n).1
          (ended_verdict Stage.finished (verify_utxo_transaction_independently x c r n).0
            (utxo_ends r n))
          refl

    pub verify_faucet :
        (r : Value)
        → Realizes x c Kind.faucet r Other Stage.arrived
            (judged Stage.finished)
            (verify_faucet_request_independently x c r)
    unfolding advance verify verify_faucet_request_independently
    verify_faucet r n =
        one x c Kind.faucet r Other 0 Stage.arrived
          (ends_in (judged Stage.finished) (verify_faucet_request_independently x c r n).0) n
          (verify_faucet_request_independently x c r n).1
          (ended_verdict Stage.finished (verify_faucet_request_independently x c r n).0
            (ground arith))
          refl

    -- The three stages of the write of a UTXO transaction.
    abbrev step :
        (r : Value) (from to : Stage) (n n' : ValidatorNode)
        → (advance x c Kind.utxo_transaction r 0 from n).0 ≡ to
        → (advance x c Kind.utxo_transaction r 0 from n).1 ≡ n'
        → Run x c Kind.utxo_transaction r Other from n to n'
    step r = one x c Kind.utxo_transaction r Other 0

    pub write_utxo :
        (r : Value) (s : Schedule)
        → Other s.height_read
        → Other s.spent
        → Realizes x c Kind.utxo_transaction r Other Stage.writing
            (always Stage.finished)
            (add_utxo_transaction_to_ledger x c r s)
    unfolding advance write spend append_block add_utxo_transaction_to_ledger
    write_utxo r s o o' n = elim (Option-cases (parse_transaction x c r)) [
      | inl e ↦
          rw (e, add_utxo_transaction_to_ledger)
            (step r Stage.writing Stage.failed n n (ground (arith, e)) (ground (arith, e)))
      | inr (tx, e) ↦
          let height = length n.blockchain.chain in
          let m : ValidatorNode = s.height_read n in
          let paid : ValidatorNode = record m {
            utxo_set = (apply_transaction tx height m.utxo_set).0;
          } in
          let m' : ValidatorNode = s.spent paid in
          let begun = Run.meets s.height_read o (
            step r Stage.writing (Stage.spending tx height) n n (ground (arith, e))
              (ground (arith, e))) in
          elim (Applied-cases (apply_transaction tx height m.utxo_set).1) [
            | inr (_, f) ↦
                rw (e, add_utxo_transaction_to_ledger, f)
                  (join x c Kind.utxo_transaction r Other begun (
                    step r (Stage.spending tx height) Stage.finished m m (ground (arith, f))
                      (ground (arith, f))))
            | inl f ↦
                let half = Run.meets s.spent o' (
                  join x c Kind.utxo_transaction r Other begun (
                    step r (Stage.spending tx height) (Stage.appending tx height) m paid
                      (ground (arith, f)) (ground (arith, f)))) in
                elim (Option-cases (
                  push_block_to_chain c.sha256 (Block.utxo_transaction tx height [])
                    m'.blockchain)) [
                      | inl g ↦
                          rw (e, add_utxo_transaction_to_ledger, f, g)
                            (join x c Kind.utxo_transaction r Other half (
                              step r (Stage.appending tx height) Stage.failed m' m'
                                (ground (arith, g)) (ground (arith, g))))
                      | inr (chain, g) ↦
                          rw (e, add_utxo_transaction_to_ledger, f, g)
                            (join x c Kind.utxo_transaction r Other half (
                              step r (Stage.appending tx height) Stage.finished m'
                                (record m' { blockchain = chain }) (ground (arith, g))
                                (ground (arith, g))))
                    ]
          ]
    ]
