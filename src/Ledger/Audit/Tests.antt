-- ===== src/Ledger/Audit/Tests.antt =====
-- Examples of a UTXO transaction that a node accepts: one output of 50, spent by its owner, of which
-- 45 are paid out.
use mini_block_chain.Prelude.{
  ◌≡◌, ◌≤◌, ◌⊎◌, u32_mod, false, arith, refl, true, Option, none, some, List, [], ◌∷◌, dec_lt,
  dec_le, ℕ_discrete, length, All, checked_add, sum_u64,
}
use mini_block_chain.Bytes.{bytes_discrete, bytes_lt}
use mini_block_chain.HashMap
use mini_block_chain.HashMap.{get}
use mini_block_chain.External.{Json, Key, Crypto}
use mini_block_chain.Utxo.{
  OutPoint, TxInput, TxOutput, UtxoTransaction, new_transaction, out_point_discrete,
}
use mini_block_chain.Utxo.Set
use mini_block_chain.Utxo.Set.{UtxoSet, get_utxo, contains, add_utxo}
use mini_block_chain.Utxo.Amounts.{total_input_from, total_input_amount, total_output_amount}
use mini_block_chain.Utxo.Apply.{check_inputs, apply_transaction}
use mini_block_chain.Utxo.Spending.{IsStored}
use mini_block_chain.Signature.{verify_transaction_signature, signature_holds, is_used}
use mini_block_chain.Node.{ValidatorNode, done, new}
use mini_block_chain.Node.Request.{hash_network_request}
use mini_block_chain.Ledger.Spend.{
  parse_all, parse_transaction, check_input_signatures, judge_utxo_transaction,
  verify_utxo_transaction_independently, add_utxo_transaction_to_ledger,
}
use mini_block_chain.Ledger.{Schedule, undisturbed}
use mini_block_chain.Ledger.Publication.{IsPaid, IsPublished, add_utxo_transaction_to_ledger_lem}
use mini_block_chain.Utxo.Index.{IsIndexed, add_utxo-IsIndexed}
use mini_block_chain.Utxo.Balance.{rebuild_index-IsIndexed}
use mini_block_chain.Utxo.Supply.{spends}
use mini_block_chain.Ledger.Audit.{
  apply_transaction, IsOwned, IsCovered, verify_utxo_transaction_independently_lem,
}

program : Unit {0}
unfolding bytes_discrete bytes_lt get out_point_discrete get_utxo contains add_utxo HashMap.insert
    HashMap.place HashMap.insert_sorted Set.push_index total_input_from total_input_amount
    total_output_amount check_inputs verify_transaction_signature signature_holds is_used parse_all
    parse_transaction check_input_signatures judge_utxo_transaction
    verify_utxo_transaction_independently checked_add sum_u64 dec_lt dec_le ℕ_discrete
program = tt

abbrev first : OutPoint
first = record { txid = 10 ∷ []; vout = 0 }

abbrev input : TxInput
input = record { outpoint = first; signature = 9 ∷ []; public_key = 1 ∷ [] }

abbrev output : TxOutput
output = record { amount = 45; recipient = 2 ∷ [] }

-- A request with one input and one output.
data Sample : Type 0 where
  request inputs outputs input_value output_value other : Sample
  conflicting other_outputs other_output_value : Sample

abbrev field : Sample → Key → Sample
field Sample.request Key.inputs = Sample.inputs
field Sample.request Key.outputs = Sample.outputs
field Sample.conflicting Key.inputs = Sample.inputs
field Sample.conflicting Key.outputs = Sample.other_outputs
field _ _ = Sample.other

abbrev items : Sample → Option (List Sample)
items Sample.inputs = some (Sample.input_value ∷ [])
items Sample.outputs = some (Sample.output_value ∷ [])
items Sample.other_outputs = some (Sample.other_output_value ∷ [])
items _ = none

abbrev as_input : Sample → Option TxInput
as_input Sample.input_value = some input
as_input _ = none

abbrev as_output : Sample → Option TxOutput
as_output Sample.output_value = some output
as_output Sample.other_output_value = some (record { amount = 50; recipient = 3 ∷ [] })
as_output _ = none

abbrev samples : Json Sample
samples = record {
  index = field;
  as_str = λ r. none;
  as_u64 = λ r. none;
  as_bool = λ r. none;
  as_array = items;
  to_string = λ r. [];
  to_tx_input = as_input;
  to_tx_output = as_output;
}

abbrev lenient : Crypto
lenient = record {
  sha256 = λ x. 0xAB ∷ [];
  hex_encode = λ b. b;
  hex_decode = λ t. some t;
  signature_from_compact = λ b. some b;
  public_key_from_slice = λ b. some b;
  message_from_slice = λ b. some b;
  verify = λ message signature key. true;
}

abbrev spend : UtxoTransaction
spend = new_transaction lenient.sha256 (input ∷ []) (output ∷ []) 0

abbrev node : ValidatorNode
node = record (new 0) {
  utxo_set =
      add_utxo first (record { amount = 50; recipient = 1 ∷ []; block_height = 1; timestamp = 5 })
        Set.new;
}

spend_parsed : parse_transaction samples lenient Sample.request ≡ some spend
unfolding program
spend_parsed = refl

spend_accepted :
    (verify_utxo_transaction_independently samples lenient Sample.request node).0 ≡ done true
unfolding program new new_transaction
spend_accepted = refl

verify_utxo_transaction_independently_lem_example :
    let n' = (verify_utxo_transaction_independently samples lenient Sample.request node).1 in
    IsCovered samples lenient spend node.utxo_set
    × All (IsOwned node.utxo_set) spend.inputs
    × (get bytes_discrete
          (hash_network_request samples lenient.sha256 Sample.request)
          n'.client_decisions
        ≡ some true)
    × (n'.utxo_set ≡ node.utxo_set)
verify_utxo_transaction_independently_lem_example =
    verify_utxo_transaction_independently_lem samples lenient Sample.request spend node spend_parsed
      spend_accepted

-- While the transaction is written, another task counts peers.
abbrev busy : Schedule
busy = record (undisturbed []) { spent = λ n. record n { total_peers = 3 } }

empty-IsIndexed : IsIndexed Set.new
unfolding Set.rebuild_index Set.index_all
empty-IsIndexed = rebuild_index-IsIndexed Set.new tt

node-IsIndexed : IsIndexed node.utxo_set
node-IsIndexed =
    add_utxo-IsIndexed first
      (record { amount = 50; recipient = 1 ∷ []; block_height = 1; timestamp = 5 }) Set.new
      empty-IsIndexed

one_output : length spend.outputs ≤ u32_mod
unfolding new_transaction
one_output = omega arith

add_utxo_transaction_to_ledger_lem_example :
    ((o : OutPoint) × (spends o spend.inputs ≡ true)
      × (contains o node.utxo_set ≡ false)
      × (add_utxo_transaction_to_ledger samples lenient Sample.request busy node ≡ (done tt, node)))
    ⊎ ((paid : UtxoSet) × All (IsStored node.utxo_set) spend.inputs
        × IsPaid spend (length node.blockchain.chain) node.utxo_set paid
        × IsPublished lenient spend
            (length node.blockchain.chain)
            (record node { utxo_set = paid; total_peers = 3 })
            (add_utxo_transaction_to_ledger samples lenient Sample.request busy node))
add_utxo_transaction_to_ledger_lem_example =
    add_utxo_transaction_to_ledger_lem samples lenient Sample.request spend busy node spend_parsed
      node-IsIndexed one_output

-- The same output is paid to somebody else.
abbrev conflict : UtxoTransaction
conflict =
    new_transaction lenient.sha256 (input ∷ []) (record { amount = 50; recipient = 3 ∷ [] } ∷ []) 0
