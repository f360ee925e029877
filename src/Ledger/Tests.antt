-- ===== src/Ledger/Tests.antt =====
-- Examples: a transfer of 50 from one account to another and from an account to itself, a round of
-- votes on it, a grant of the faucet, and a new account.
use mini_block_chain.Prelude.{
  if◌then◌else◌, Bool, List, ◌*◌, ◌+◌, ◌-◌, ◌<◌, ◌≡◌, refl, ite, true, Option, none, some, [], ◌∷◌,
  ◌++◌, arith, dec_lt, dec_le, ℕ_discrete,
}
use mini_block_chain.Bytes.{Bytes, Text, bytes_discrete}
use mini_block_chain.HashMap
use mini_block_chain.HashMap.{get}
use mini_block_chain.External.{Json, Key, Crypto}
use mini_block_chain.Merkle.{Account, MerkleTree, find_account, get_account_balance, get_nonce}
use mini_block_chain.Merkle
use mini_block_chain.Merkle.Accounts.{IsConsistent, new-IsConsistent, insert_account-IsConsistent}
use mini_block_chain.Chain.{Block, set_block_hash}
use mini_block_chain.Node.{pure, ◌>>◌, ValidatorNode, done, panicked, new}
use mini_block_chain.Node.Request.{parse_digits, parse_u64, amount_field}
use mini_block_chain.Ledger.Transfer.{
  judge_transaction, handle_transaction_request, add_transaction_to_ledger,
}
use mini_block_chain.Ledger.Balances.{tokens}
use mini_block_chain.Node.Request.{str_field, hash_network_request}
use mini_block_chain.Consensus.Votes.{vote_arrives, ayes}
use mini_block_chain.Ledger.{length, ltb, map, false, faucet_amount, undisturbed, consult}
use mini_block_chain.Ledger.Accounts.{add_account_creation_to_ledger, add_faucet_request_to_ledger}
use mini_block_chain.Ledger.Transfer.{verify_transaction_independently, judge_transaction}
use mini_block_chain.Ledger.Round.{IsSameState, handle_transaction_request_lem}
use mini_block_chain.Ledger.Verdict.{is_acceptable, verify_transaction_independently_lem}
use mini_block_chain.Signature.{verify_transaction_signature, signature_holds, is_used}
use mini_block_chain.Ledger.Overdraft.{second_transfer_panics}
use mini_block_chain.Ledger.Agreement.{consult_lem}
use mini_block_chain.Ledger.Minting.{
  add_faucet_request_to_ledger_lem, add_account_creation_to_ledger_lem,
}
use mini_block_chain.Ledger.Payment.{
  IsPayable, add_transaction_to_ledger_lem, tokens-add_transaction_to_ledger,
}

program : Unit {0}
unfolding bytes_discrete get find_account get_account_balance get_nonce parse_digits parse_u64
    amount_field Merkle.insert_account HashMap.insert Merkle.account_exists dec_lt dec_le ℕ_discrete
program = tt

data Sample : Type 0 where
  text : Text → Sample
  request : (Key → Text) → Sample

abbrev field : Sample → Key → Sample
field (Sample.text t) k = Sample.text []
field (Sample.request f) k = Sample.text (f k)

abbrev text_of : Sample → Option Text
text_of (Sample.text t) = some t
text_of (Sample.request f) = none

abbrev samples : Json Sample
samples = record {
  index = field;
  as_str = text_of;
  as_u64 = λ r. none;
  as_bool = λ r. none;
  as_array = λ r. none;
  to_string = λ r. [];
  to_tx_input = λ r. none;
  to_tx_output = λ r. none;
}

abbrev lenient : Crypto
lenient = record {
  sha256 = λ x. 0xAB ∷ [];
  hex_encode = λ b. b;
  hex_decode = λ t. some t;
  signature_from_compact = λ b. some b;
  public_key_from_slice = λ b. some b;
  message_from_slice = λ b. some b;
  verify = λ message signature key. true;
}

-- Alice pays the recipient 50.
abbrev pays : Text → Key → Text
pays recipient Key.sender_public_key = 1 ∷ []
pays recipient Key.recipient_public_key = recipient
pays recipient Key.amount = 0x35 ∷ 0x30 ∷ []
pays recipient _ = []

abbrev to_bob : Sample
to_bob = Sample.request (pays (2 ∷ []))

abbrev to_herself : Sample
to_herself = Sample.request (pays (1 ∷ []))

abbrev alice : Account
alice = record { public_key = 1 ∷ []; public_key_hash = []; balance = 80; nonce = 4 }

abbrev bob : Account
bob = record { public_key = 2 ∷ []; public_key_hash = []; balance = 7; nonce = 0 }

abbrev accounts : MerkleTree
accounts = Merkle.insert_account bob (Merkle.insert_account alice Merkle.new)

accounts-IsConsistent : IsConsistent accounts
unfolding program
accounts-IsConsistent =
    insert_account-IsConsistent bob (Merkle.insert_account alice Merkle.new)
      (insert_account-IsConsistent alice Merkle.new new-IsConsistent refl) refl

abbrev node : ValidatorNode
node = record (new 0) { merkle_tree = accounts }

to_bob-IsPayable : IsPayable samples lenient to_bob node 80 7 alice
unfolding program
to_bob-IsPayable = record {
  consistent = accounts-IsConsistent;
  sender_balance = refl;
  recipient_balance = refl;
  sender_account = refl;
  covered = omega arith;
  fits = omega arith;
  countable = omega arith;
}

to_herself-IsPayable : IsPayable samples lenient to_herself node 80 80 alice
unfolding program
to_herself-IsPayable = record {
  consistent = accounts-IsConsistent;
  sender_balance = refl;
  recipient_balance = refl;
  sender_account = refl;
  covered = omega arith;
  fits = omega arith;
  countable = omega arith;
}

fifty : parse_u64 (0x35 ∷ 0x30 ∷ []) ≡ some 50
unfolding program
fifty = refl

abbrev transfer_block : Block
transfer_block =
    Block.transaction (1 ∷ []) (80 - amount_field samples to_bob) (2 ∷ [])
      (7 + amount_field samples to_bob) (amount_field samples to_bob) 11 4 []

add_transaction_to_ledger_lem_example :
    (n' : ValidatorNode) × (add_transaction_to_ledger samples lenient to_bob 11 node
      ≡ (done tt, n'))
    × IsConsistent n'.merkle_tree
    × ((k : Bytes)
        → (get_account_balance k n'.merkle_tree
            ≡ ite (bytes_discrete (2 ∷ []) k) (some (7 + amount_field samples to_bob)) (
                ite
                  (bytes_discrete (1 ∷ []) k)
                  (some (80 - amount_field samples to_bob))
                  (get_account_balance k node.merkle_tree)))
          × (get_nonce k n'.merkle_tree
              ≡ ite (bytes_discrete (1 ∷ []) k) (some (4 + 1)) (get_nonce k node.merkle_tree)))
    × (n'.blockchain.chain
        ≡ node.blockchain.chain ++ set_block_hash lenient.sha256 transfer_block ∷ [])
    × (n' ≡ record node { merkle_tree = n'.merkle_tree; blockchain = n'.blockchain })
add_transaction_to_ledger_lem_example =
    add_transaction_to_ledger_lem samples lenient to_bob 11 node 80 7 alice to_bob-IsPayable

-- A transfer of 50 from alice to herself: there are 50 more.
tokens-add_transaction_to_ledger_example :
    tokens (add_transaction_to_ledger samples lenient to_herself 11 node).1.merkle_tree
    ≡ tokens node.merkle_tree
      + ite (bytes_discrete (1 ∷ []) (1 ∷ [])) (amount_field samples to_herself) 0
tokens-add_transaction_to_ledger_example =
    tokens-add_transaction_to_ledger samples lenient to_herself 11 node 80 80 alice
      to_herself-IsPayable

-- Another 50 for bob, under another signature: alice has 80.
abbrev pays_again : Key → Text
pays_again Key.signature = 0x61 ∷ []
pays_again k = pays (2 ∷ []) k

abbrev again : Sample
again = Sample.request pays_again

bob_is_not_alice : ¬ (
    str_field samples Key.recipient_public_key to_bob
    ≡ str_field samples Key.sender_public_key to_bob)
bob_is_not_alice e = cc e

again-accepted : (verify_transaction_independently samples lenient again node).0 ≡ done true
unfolding program verify_transaction_independently judge_transaction verify_transaction_signature
    signature_holds is_used new
again-accepted = refl

not_enough_for_both : 80 < amount_field samples to_bob + amount_field samples again
unfolding program
not_enough_for_both = omega arith

second_transfer_panics_example :
    let verified = (verify_transaction_independently samples lenient again node).1 in
    let (outcome, written) = add_transaction_to_ledger samples lenient to_bob 11 verified in
    (outcome ≡ done tt)
    × (add_transaction_to_ledger samples lenient again 12 written ≡ (panicked, written))
second_transfer_panics_example =
    second_transfer_panics samples lenient to_bob again 11 12 node 80 7 alice to_bob-IsPayable
      bob_is_not_alice refl again-accepted not_enough_for_both

verify_transaction_independently_lem_example :
    let (outcome, n') = verify_transaction_independently samples lenient to_bob node in
    (outcome ≡ done (is_acceptable samples lenient to_bob node))
    × (get bytes_discrete (hash_network_request samples lenient.sha256 to_bob) n'.client_decisions
        ≡ some (is_acceptable samples lenient to_bob node))
    × (n' ≡ record node {
      client_decisions = n'.client_decisions;
      used_zk_proofs = n'.used_zk_proofs;
    })
verify_transaction_independently_lem_example =
    verify_transaction_independently_lem samples lenient to_bob node

abbrev request_hash : Bytes
request_hash = hash_network_request samples lenient.sha256 to_bob

-- The node has decided for the request, and has two active peers.
abbrev decided : ValidatorNode
decided = record node {
  client_decisions = (request_hash, true) ∷ [];
  active_peers = (1 ∷ [], 5) ∷ (2 ∷ [], 6) ∷ [];
}

own_decision : get bytes_discrete request_hash decided.client_decisions ≡ some true
unfolding program hash_network_request
own_decision = refl

no_votes_yet : get bytes_discrete request_hash decided.peer_decisions ≡ none
unfolding program new
no_votes_yet = refl

consult_lem_example :
    (consult samples lenient to_bob
      (undisturbed (map (vote_arrives request_hash) (true ∷ false ∷ [])))
      decided).0
    ≡ done (ltb (length (true ∷ true ∷ false ∷ [])) (2 * ayes (true ∷ true ∷ false ∷ [])))
consult_lem_example =
    consult_lem samples lenient to_bob true (true ∷ false ∷ []) decided own_decision no_votes_yet
      refl (omega arith)

-- A request with one key, and the text of no hash.
abbrev names : Text → Key → Text
names key Key.public_key = key
names key _ = []

abbrev grant : Sample
grant = Sample.request (names (1 ∷ []))

abbrev creation : Sample
creation = Sample.request (names (3 ∷ []))

alice_balance :
    get_account_balance (str_field samples Key.public_key grant) node.merkle_tree ≡ some 80
unfolding program
alice_balance = refl

carol_unknown :
    Merkle.account_exists (str_field samples Key.public_key creation) node.merkle_tree ≡ false
unfolding program
carol_unknown = refl

add_faucet_request_to_ledger_lem_example :
    (n' : ValidatorNode) × (add_faucet_request_to_ledger samples lenient grant 12 node
      ≡ (done tt, n'))
    × ((k : Bytes)
        → get_account_balance k n'.merkle_tree
          ≡ ite
              (bytes_discrete (1 ∷ []) k)
              (some (80 + faucet_amount))
              (get_account_balance k node.merkle_tree))
    × IsConsistent n'.merkle_tree
    × (n'.blockchain.chain
        ≡ node.blockchain.chain
          ++ set_block_hash lenient.sha256 (Block.faucet (1 ∷ []) (80 + faucet_amount) 12 []) ∷ [])
add_faucet_request_to_ledger_lem_example =
    add_faucet_request_to_ledger_lem samples lenient grant 12 80 node accounts-IsConsistent
      alice_balance (omega arith)

add_account_creation_to_ledger_lem_example :
    (n' : ValidatorNode) × (add_account_creation_to_ledger samples lenient creation 12 node
      ≡ (done tt, n'))
    × ((k : Bytes)
        → get_account_balance k n'.merkle_tree
          ≡ ite (bytes_discrete (3 ∷ []) k) (some 0) (get_account_balance k node.merkle_tree))
    × IsConsistent n'.merkle_tree
    × (n'.blockchain.chain
        ≡ node.blockchain.chain
          ++ set_block_hash lenient.sha256 (Block.new_account (3 ∷ []) 0 12 []) ∷ [])
add_account_creation_to_ledger_lem_example =
    add_account_creation_to_ledger_lem samples lenient creation 12 [] node accounts-IsConsistent
      carol_unknown refl

-- Two active peers, and no decision yet.
abbrev asked : ValidatorNode
asked = record node { active_peers = (1 ∷ [], 5) ∷ (2 ∷ [], 6) ∷ [] }

none_asked_before : get bytes_discrete request_hash asked.peer_decisions ≡ none
unfolding program new
none_asked_before = refl

handle_transaction_request_lem_example :
    let votes : List Bool = is_acceptable samples lenient to_bob asked ∷ true ∷ false ∷ [] in
    (n' : ValidatorNode) × IsSameState asked n'
    × (handle_transaction_request samples lenient to_bob
          (undisturbed (map (vote_arrives request_hash) (true ∷ false ∷ [])))
          11
          asked
        ≡ (if ltb (length votes) (2 * ayes votes)
            then (add_transaction_to_ledger samples lenient to_bob 11 >> pure true) n'
            else (done false, n')))
handle_transaction_request_lem_example =
    handle_transaction_request_lem samples lenient to_bob (true ∷ false ∷ []) 11 asked
      none_asked_before refl (omega arith)
