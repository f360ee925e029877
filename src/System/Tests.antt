-- ===== src/System/Tests.antt =====
-- Examples: an account creation and a faucet request for it whose stages alternate, in a network
-- without peers.
use mini_block_chain.Prelude.{◌≡◌, refl, true, Option, none, some, [], ◌∷◌}
use mini_block_chain.Bytes.{Text}
use mini_block_chain.External.{Json, Crypto}
use mini_block_chain.Node.{PeerLedgerResponse, ValidatorNode, Env, new}
use mini_block_chain.Ledger.{undisturbed}
use mini_block_chain.Ledger.Accounts.{handle_account_creation_request, handle_faucet_request}
use mini_block_chain.Ledger.Transfer.{handle_transaction_request}
use mini_block_chain.Ledger.Spend.{handle_utxo_transaction_request}
use mini_block_chain.System.{Kind, Stage, Task, System, run, Step, Reach}
use mini_block_chain.System.Invariant.{WellFormed, new-WellFormed, Reach-WellFormed}
use mini_block_chain.System.History.{Extends, Reach-Extends}
use mini_block_chain.System.Refines.{ends_in, Run}
use mini_block_chain.System.Handlers.{always}
use mini_block_chain.System.Conforms.{handlers_conform}

-- Every field of this request reads "11".
abbrev texts : Json Text
texts = record {
  index = λ r k. r;
  as_str = λ r. some r;
  as_u64 = λ r. none;
  as_bool = λ r. none;
  as_array = λ r. some [];
  to_string = λ r. r;
  to_tx_input = λ r. none;
  to_tx_output = λ r. none;
}

abbrev lenient : Crypto
lenient = record {
  sha256 = λ x. 0xAB ∷ [];
  hex_encode = λ b. b;
  hex_decode = λ t. some t;
  signature_from_compact = λ b. some b;
  public_key_from_slice = λ b. some b;
  message_from_slice = λ b. some b;
  verify = λ message signature key. true;
}

abbrev elevens : Text
elevens = 0x31 ∷ 0x31 ∷ []

abbrev unheard : Text → Option PeerLedgerResponse
unheard v = none

abbrev idle : System Text
idle = record { node = new 0; tasks = [] }

abbrev arriving : Kind → Task Text
arriving k = record { kind = k; request = elevens; stage = Stage.arrived }

abbrev started : System Text
started = record idle { tasks = arriving Kind.account_creation ∷ arriving Kind.faucet ∷ [] }

-- The creation runs to its end, while the faucet request counts its peers.
abbrev written : System Text
written = run texts lenient 0 9 (
    run texts lenient 0 8 (
      run texts lenient 0 7 (
        run texts lenient 1 6
          (run texts lenient 0 5 (run texts lenient 1 4 (run texts lenient 0 3 started))))))

begun : Reach texts lenient unheard idle started
begun =
    Reach.next (Reach.next Reach.here (Step.starts Kind.account_creation elevens idle)) (
      Step.starts Kind.faucet elevens (record idle { tasks = arriving Kind.account_creation ∷ [] }))

reached : Reach texts lenient unheard idle written
reached =
    let s1 = run texts lenient 0 3 started in
    let s2 = run texts lenient 1 4 s1 in
    let s3 = run texts lenient 0 5 s2 in
    let s4 = run texts lenient 1 6 s3 in
    let s5 = run texts lenient 0 7 s4 in
    let s6 = run texts lenient 0 8 s5 in
    Reach.next
      (Reach.next
        (Reach.next
          (Reach.next
            (Reach.next
              (Reach.next (Reach.next begun (Step.goes_on 0 3 started)) (Step.goes_on 1 4 s1))
              (Step.goes_on 0 5 s2))
            (Step.goes_on 1 6 s3))
          (Step.goes_on 0 7 s4))
        (Step.goes_on 0 8 s5))
      (Step.goes_on 0 9 s6)

Reach-WellFormed_example : WellFormed lenient written.node
Reach-WellFormed_example = Reach-WellFormed lenient texts unheard reached (new-WellFormed lenient 0)

Reach-Extends_example : Extends lenient idle.node written.node
Reach-Extends_example = Reach-Extends lenient texts unheard reached

-- Nothing happens in between.
abbrev NothingElse : Env → Type 0
NothingElse e = (n : ValidatorNode) → e n ≡ n

nothing_else : (n : ValidatorNode) → n ≡ n
nothing_else n = refl

handlers_conform_example :
    (let (outcome, n') =
        handle_account_creation_request texts lenient elevens (undisturbed []) 7 (new 0) in
      Run texts lenient Kind.account_creation elevens NothingElse Stage.arrived
        (new 0)
        (ends_in (always Stage.finished) outcome)
        n')
    × (let (outcome, n') =
          handle_transaction_request texts lenient elevens (undisturbed []) 7 (new 0) in
        Run texts lenient Kind.transaction elevens NothingElse Stage.arrived
          (new 0)
          (ends_in (always Stage.finished) outcome)
          n')
    × (let (outcome, n') =
          handle_utxo_transaction_request texts lenient elevens (undisturbed []) (new 0) in
        Run texts lenient Kind.utxo_transaction elevens NothingElse Stage.arrived
          (new 0)
          (ends_in (always Stage.finished) outcome)
          n')
    × (let (outcome, n') = handle_faucet_request texts lenient elevens (undisturbed []) 7 (new 0) in
        Run texts lenient Kind.faucet elevens NothingElse Stage.arrived
          (new 0)
          (ends_in (always Stage.finished) outcome)
          n')
handlers_conform_example =
    handlers_conform texts lenient NothingElse elevens (undisturbed [])
      (
        nothing_else,
        (nothing_else, (nothing_else, (nothing_else, (nothing_else, (nothing_else, tt))))),
      )
      7 (new 0)
