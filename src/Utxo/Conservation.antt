-- ===== src/Utxo/Conservation.antt =====
-- src/modules/utxo.rs, `apply_transaction`: what it does to the sum of all amounts.
use mini_block_chain.Prelude.{
  ℕ, ◌+◌, ◌≤◌, ◌<◌, ◌≡◌, refl, inl, inr, false, some, List, [], ◌∷◌, arith, Option-cases, length,
  sum, All, u64_mod, u32_mod, checked_add,
}
use mini_block_chain.Bytes.{Bytes}
use mini_block_chain.Utxo.{OutPoint, Utxo, TxInput, UtxoTransaction}
use mini_block_chain.Utxo.Set.{UtxoSet, remove_utxo, get_utxo, contains}
use mini_block_chain.Utxo.Amounts.{total_input_from, total_input_amount}
use mini_block_chain.Utxo.Apply.{out_point_at, Applied, remove_inputs, apply_transaction}
use mini_block_chain.Utxo.Spending.{IsStored, applied_ok}
use mini_block_chain.Utxo.Index.{IsIndexed, remove_utxo-IsIndexed}
use mini_block_chain.Utxo.Supply.{
  supply, spends, IsDistinct, IsFresh, get_utxo-remove_utxo, supply-remove_utxo,
  get_utxo-remove_inputs, supply-add_outputs,
}

-- Input amounts do not depend on an outpoint that no input names.
total_input_from-remove_utxo :
    (o : OutPoint) (is : List TxInput) (s : UtxoSet) (acc : ℕ)
    → IsIndexed s
    → spends o is ≡ false
    → total_input_from (remove_utxo o s).0 acc is ≡ total_input_from s acc is
unfolding total_input_from spends checked_add
total_input_from-remove_utxo o [] s acc h e = refl
total_input_from-remove_utxo o (i ∷ is) s acc h e = elim (Option-cases (get_utxo i.outpoint s)) [
  | inl q ↦ ground (arith, q, get_utxo-remove_utxo o i.outpoint s h)
  | inr (u, q) ↦ ground (
    arith,
    q,
    get_utxo-remove_utxo o i.outpoint s h,
    total_input_from-remove_utxo o is s (acc + u.amount) h,
  )
]

-- Distinct inputs take their total out of the supply.
supply-remove_inputs :
    (is : List TxInput) (s : UtxoSet) (acc n : ℕ)
    → IsIndexed s
    → IsDistinct is
    → total_input_from s acc is ≡ some n
    → supply (remove_inputs is s) + n ≡ supply s + acc
unfolding total_input_from remove_inputs checked_add
supply-remove_inputs [] s acc n h d e = ground arith
supply-remove_inputs (i ∷ is) s acc n h d e = elim (Option-cases (get_utxo i.outpoint s)) [
  | inl q ↦ absurd (ground (arith, q))
  | inr (u, q) ↦ ground (
    arith,
    q,
    supply-remove_utxo i.outpoint s,
    total_input_from-remove_utxo i.outpoint is s (acc + u.amount) h d.0,
    supply-remove_inputs is (remove_utxo i.outpoint s).0 (acc + u.amount) n
        (remove_utxo-IsIndexed i.outpoint s h) d.1,
  )
]

IsStored-of_total :
    (is : List TxInput) (s : UtxoSet) (acc n : ℕ)
    → total_input_from s acc is ≡ some n
    → All (IsStored s) is
unfolding total_input_from contains get_utxo checked_add
IsStored-of_total [] s acc n e = tt
IsStored-of_total (i ∷ is) s acc n e = elim (Option-cases (get_utxo i.outpoint s)) [
  | inl q ↦ absurd (ground (arith, q))
  | inr (u, q) ↦ (ground (arith, q), IsStored-of_total is s (acc + u.amount) n (ground (arith, q)))
]

IsFresh-after_removal :
    (txid : Bytes) (is : List TxInput) (s : UtxoSet)
    → IsIndexed s
    → IsFresh txid 0 s
    → IsFresh txid 0 (remove_inputs is s)
IsFresh-after_removal txid is s h f i l c =
    ground (arith, f i l c, get_utxo-remove_inputs (out_point_at txid i) is s h)

-- On an indexed set, a transaction with distinct inputs whose total is defined, no more outputs
-- than a u32 numbers and a hash under which nothing is stored is applied, and the supply
-- afterwards plus the total of the inputs is the supply before plus that of the outputs.
pub apply_transaction_conserves :
    (tx : UtxoTransaction) (height n : ℕ) (s : UtxoSet)
    → IsIndexed s
    → IsDistinct tx.inputs
    → total_input_amount tx s ≡ some n
    → length tx.outputs ≤ u32_mod
    → IsFresh tx.hash 0 s
    → ((apply_transaction tx height s).1 ≡ Applied.ok)
      × (supply (apply_transaction tx height s).0 + n ≡ supply s + sum (λ o. o.amount) tx.outputs)
unfolding total_input_amount
apply_transaction_conserves tx height n s h d e b f =
    rw (applied_ok tx height s (IsStored-of_total tx.inputs s 0 n e)) (
      refl,
      omega (
        arith,
        supply-remove_inputs tx.inputs s 0 n h d e,
        supply-add_outputs tx.hash height tx.timestamp 0 tx.outputs (remove_inputs tx.inputs s)
            (omega arith) (IsFresh-after_removal tx.hash tx.inputs s h f),
      ),
    )

-- Two inputs that name one output take it out once.
removed_once :
    (i j : TxInput) (u : Utxo) (s : UtxoSet)
    → IsIndexed s
    → i.outpoint ≡ j.outpoint
    → get_utxo i.outpoint s ≡ some u
    → supply (remove_inputs (i ∷ j ∷ []) s) + u.amount ≡ supply s
unfolding remove_inputs
removed_once i j u s h same q = ground (
  arith,
  get_utxo-remove_utxo i.outpoint j.outpoint s h,
  supply-remove_utxo i.outpoint s,
  supply-remove_utxo j.outpoint (remove_utxo i.outpoint s).0,
)

counted_twice :
    (i j : TxInput) (u : Utxo) (s : UtxoSet)
    → i.outpoint ≡ j.outpoint
    → get_utxo i.outpoint s ≡ some u
    → u.amount + u.amount < u64_mod
    → total_input_from s 0 (i ∷ j ∷ []) ≡ some (u.amount + u.amount)
unfolding total_input_from checked_add
counted_twice i j u s same q small = ground arith

-- On an indexed set, a transaction with two inputs that name one stored output, twice whose amount
-- fits a u64, that pays out twice that amount, in no more outputs than a u32 numbers and under a
-- hash that nothing is stored under: the total of its inputs is twice the amount, it is applied,
-- and the supply grows by the amount.
pub duplicate_input_inflates :
    (tx : UtxoTransaction) (i j : TxInput) (height : ℕ) (u : Utxo) (s : UtxoSet)
    → IsIndexed s
    → tx.inputs ≡ i ∷ j ∷ []
    → i.outpoint ≡ j.outpoint
    → get_utxo i.outpoint s ≡ some u
    → u.amount + u.amount < u64_mod
    → sum (λ o. o.amount) tx.outputs ≡ u.amount + u.amount
    → length tx.outputs ≤ u32_mod
    → IsFresh tx.hash 0 s
    → (total_input_amount tx s ≡ some (u.amount + u.amount))
      × ((apply_transaction tx height s).1 ≡ Applied.ok)
      × (supply (apply_transaction tx height s).0 ≡ supply s + u.amount)
unfolding total_input_amount
duplicate_input_inflates tx i j height u s h e same q small pays b f = (
  total,
  rw (applied_ok tx height s stored),
  rw (applied_ok tx height s stored) (
      omega (
        arith,
        pays,
        removed,
        supply-add_outputs tx.hash height tx.timestamp 0 tx.outputs (remove_inputs tx.inputs s)
            (omega arith) (IsFresh-after_removal tx.hash tx.inputs s h f),
      )),
)
  where
    total : total_input_from s 0 tx.inputs ≡ some (u.amount + u.amount)
    total = rw e (counted_twice i j u s same q small)

    stored : All (IsStored s) tx.inputs
    stored = IsStored-of_total tx.inputs s 0 (u.amount + u.amount) total

    removed : supply (remove_inputs tx.inputs s) + u.amount ≡ supply s
    removed = rw e (removed_once i j u s h same q)
