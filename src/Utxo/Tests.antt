-- ===== src/Utxo/Tests.antt =====
-- Examples of the set of unspent outputs: two outputs, a transaction that spends one of them, and
-- one that names it twice.
use mini_block_chain.Prelude.{
  ℕ, ◌+◌, ◌≤◌, ◌≡◌, refl, ◌≢◌, ◌⊎◌, true, false, none, some, [], ◌∷◌, arith, dec_lt, dec_le,
  ℕ_discrete, sum, All, retain_ne, checked_add, sum_u64, in_u64,
}
use mini_block_chain.Bytes.{Bytes, bytes_discrete, bytes_lt}
use mini_block_chain.HashMap.{get, insert, remove, place, insert_sorted}
use mini_block_chain.HashMap.Sizes.{total}
use mini_block_chain.Utxo.{
  OutPoint, out_point_discrete, out_point_lt, Utxo, TxInput, UtxoTransaction,
}
use mini_block_chain.Utxo.Set.{
  UtxoSet, new, unindex, push_index, add_utxo, remove_utxo, get_utxo, contains, get_balance,
  rebuild_index, resolve, index_all, get_utxos_for_recipient,
}
use mini_block_chain.Utxo.Amounts.{total_input_from, total_input_amount}
use mini_block_chain.Utxo.Apply.{
  Applied, check_inputs, remove_inputs, add_outputs, apply_transaction,
}
use mini_block_chain.Utxo.Index.{IsIndexed, add_utxo-IsIndexed}
use mini_block_chain.Utxo.Balance.{paid_to, get_balance_lem, rebuild_index-IsIndexed}
use mini_block_chain.Utxo.Supply.{
  supply, spends, IsDistinct, IsFresh, apply_transaction-IsIndexed, output_at,
}
use mini_block_chain.Utxo.Spending.{IsStored, apply_transaction_lem, no_double_spend}
use mini_block_chain.Utxo.Conservation.{apply_transaction_conserves, duplicate_input_inflates}

program : Unit {0}
unfolding bytes_discrete bytes_lt get insert remove place insert_sorted total out_point_discrete
    out_point_lt unindex push_index add_utxo remove_utxo get_utxo contains get_balance rebuild_index
    resolve index_all get_utxos_for_recipient total_input_from total_input_amount check_inputs
    remove_inputs add_outputs apply_transaction supply spends output_at ℕ_discrete dec_lt dec_le
    checked_add sum_u64 retain_ne sum
program = tt

-- Two recipients, and the outpoints of two earlier transactions.
abbrev alice : Bytes
alice = 1 ∷ []

abbrev bob : Bytes
bob = 2 ∷ []

abbrev first : OutPoint
first = record { txid = 10 ∷ []; vout = 0 }

abbrev second : OutPoint
second = record { txid = 11 ∷ []; vout = 1 }

abbrev coin : Utxo
coin = record { amount = 50; recipient = alice; block_height = 1; timestamp = 5 }

abbrev small_coin : Utxo
small_coin = record { amount = 20; recipient = bob; block_height = 1; timestamp = 5 }

abbrev two_coins : UtxoSet
two_coins = add_utxo second small_coin (add_utxo first coin new)

new-IsIndexed : IsIndexed new
unfolding program
new-IsIndexed = rebuild_index-IsIndexed new tt

two_coins-IsIndexed : IsIndexed two_coins
two_coins-IsIndexed =
    add_utxo-IsIndexed second small_coin (add_utxo first coin new)
      (add_utxo-IsIndexed first coin new new-IsIndexed)

abbrev input : TxInput
input = record { outpoint = first; signature = []; public_key = alice }

-- Pays bob 30 and gives alice 15 back; 5 is the fee.
abbrev payment : UtxoTransaction
payment = record {
  inputs = input ∷ [];
  outputs =
      record { amount = 30; recipient = bob } ∷ record { amount = 15; recipient = alice } ∷ [];
  timestamp = 9;
  hash = 12 ∷ [];
}

-- Names the output of 50 twice and pays out 100.
abbrev doubled : UtxoTransaction
doubled = record {
  inputs = input ∷ input ∷ [];
  outputs = record { amount = 100; recipient = bob } ∷ [];
  timestamp = 9;
  hash = 13 ∷ [];
}

paid : (apply_transaction payment 2 two_coins).1 ≡ Applied.ok
unfolding program
paid = refl

two_coins-supply : supply two_coins ≡ 70
unfolding program
two_coins-supply = refl

first_spent : spends first payment.inputs ≡ true
unfolding program
first_spent = refl

other_hash : first.txid ≢ payment.hash
other_hash e = cc e

not_yet_used : (h : ℕ) → 12 ≤ h → IsFresh (h ∷ []) 0 two_coins
unfolding program
not_yet_used h b i l c = ground (arith, b)

get_balance_lem_example :
    get_balance alice two_coins ≡ in_u64 (total (paid_to alice) two_coins.utxos)
get_balance_lem_example = get_balance_lem alice two_coins two_coins-IsIndexed

apply_transaction-IsIndexed_example : IsIndexed (apply_transaction payment 2 two_coins).0
apply_transaction-IsIndexed_example =
    apply_transaction-IsIndexed payment 2 two_coins two_coins-IsIndexed

apply_transaction_lem_example :
    (((apply_transaction payment 2 two_coins).1 ≡ Applied.ok)
      × All (IsStored two_coins) payment.inputs)
    ⊎ ((o : OutPoint) × (apply_transaction payment 2 two_coins ≡ (two_coins, Applied.not_found o))
        × (contains o two_coins ≡ false)
        × (spends o payment.inputs ≡ true))
apply_transaction_lem_example = apply_transaction_lem payment 2 two_coins

no_double_spend_example :
    let s' = (apply_transaction payment 2 two_coins).0 in
    (get_utxo first s' ≡ none)
    × ((o' : OutPoint) × (apply_transaction payment 3 s' ≡ (s', Applied.not_found o')))
no_double_spend_example =
    no_double_spend payment payment 2 3 first two_coins two_coins-IsIndexed paid first_spent
      other_hash first_spent

one_input : IsDistinct payment.inputs
unfolding program
one_input = (refl, tt)

doubled_pays : sum (λ o. o.amount) doubled.outputs ≡ 100
unfolding program
doubled_pays = refl

payment_total : total_input_amount payment two_coins ≡ some 50
unfolding program
payment_total = refl

apply_transaction_conserves_example :
    ((apply_transaction payment 2 two_coins).1 ≡ Applied.ok)
    × (supply (apply_transaction payment 2 two_coins).0 + 50
        ≡ supply two_coins + sum (λ o. o.amount) payment.outputs)
apply_transaction_conserves_example =
    apply_transaction_conserves payment 2 50 two_coins two_coins-IsIndexed one_input payment_total
      (omega arith) (not_yet_used 12 (omega arith))

first_stored : get_utxo first two_coins ≡ some coin
unfolding program
first_stored = refl

duplicate_input_inflates_example :
    (total_input_amount doubled two_coins ≡ some 100)
    × ((apply_transaction doubled 2 two_coins).1 ≡ Applied.ok)
    × (supply (apply_transaction doubled 2 two_coins).0 ≡ supply two_coins + 50)
duplicate_input_inflates_example =
    duplicate_input_inflates doubled input input 2 coin two_coins two_coins-IsIndexed refl refl
      first_stored (omega arith) doubled_pays (omega arith) (not_yet_used 13 (omega arith))
