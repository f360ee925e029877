-- ===== src/Utxo/Supply.antt =====
-- src/modules/utxo.rs, `apply_transaction`: its three loops, on the stored outputs and on the sum
-- of their amounts.
use mini_block_chain.Prelude.{
  ℕ, suc, ◌+◌, ◌≤◌, ◌<◌, ◌≡◌, refl, ◌≢◌, ite, Bool, true, false, Option, none, some, List, [], ◌∷◌,
  arith, ◌==◌, if◌then◌else◌, length, sum, u32_mod,
}
use mini_block_chain.Bytes.{Bytes}
use mini_block_chain.HashMap.Sizes.{total, at, total-remove, total-insert_sorted}
use mini_block_chain.HashMap.Laws.{get-remove, get-insert_sorted}
use mini_block_chain.Utxo.{
  OutPoint, out_point_discrete, out_point_lt, Utxo, TxInput, TxOutput, UtxoTransaction,
}
use mini_block_chain.Utxo.Set.{UtxoSet, add_utxo, remove_utxo, get_utxo}
use mini_block_chain.Utxo.Apply.{
  out_point_at, utxo_of, remove_inputs, add_outputs, apply_transaction,
}
use mini_block_chain.Utxo.Index.{IsIndexed, add_utxo-IsIndexed, remove_utxo-IsIndexed}

abbrev pub or_else : Option Utxo → Option Utxo → Option Utxo
or_else none v = v
or_else (some u) v = some u

-- All the tokens in the set.
unfoldable pub supply : UtxoSet → ℕ
supply s = total (λ u. u.amount) s.utxos

pub get_utxo-add_utxo :
    (o o' : OutPoint) (u : Utxo) (s : UtxoSet)
    → get_utxo o' (add_utxo o u s) ≡ ite (out_point_discrete o o') (some u) (get_utxo o' s)
unfolding get_utxo add_utxo
get_utxo-add_utxo o o' u s =
    ground (arith, get-insert_sorted out_point_discrete out_point_lt o o' u s.utxos)

pub get_utxo-remove_utxo :
    (o o' : OutPoint) (s : UtxoSet)
    → IsIndexed s
    → get_utxo o' (remove_utxo o s).0 ≡ ite (out_point_discrete o o') none (get_utxo o' s)
unfolding get_utxo remove_utxo
get_utxo-remove_utxo o o' s h = ground (arith, get-remove out_point_discrete o o' s.utxos h.unique)

pub supply-add_utxo :
    (o : OutPoint) (u : Utxo) (s : UtxoSet)
    → supply (add_utxo o u s) + at (λ x. x.amount) (get_utxo o s) ≡ supply s + u.amount
unfolding supply add_utxo get_utxo
supply-add_utxo o u s = ground (
  arith,
  total-insert_sorted out_point_discrete out_point_lt (λ (x : Utxo). x.amount) o u s.utxos,
)

pub supply-remove_utxo :
    (o : OutPoint) (s : UtxoSet)
    → supply (remove_utxo o s).0 + at (λ x. x.amount) (get_utxo o s) ≡ supply s
unfolding supply remove_utxo get_utxo
supply-remove_utxo o s =
    ground (arith, total-remove out_point_discrete (λ (x : Utxo). x.amount) o s.utxos)

-- Whether an input names the outpoint.
unfoldable pub spends : OutPoint → List TxInput → Bool
spends o [] = false
spends o (i ∷ is) = ite (out_point_discrete i.outpoint o) true (spends o is)

-- No two inputs name the same outpoint.
abbrev pub IsDistinct : List TxInput → Type 0
IsDistinct [] = Unit
IsDistinct (i ∷ is) = (spends i.outpoint is ≡ false) × IsDistinct is

pub remove_inputs-IsIndexed :
    (is : List TxInput) (s : UtxoSet) → IsIndexed s → IsIndexed (remove_inputs is s)
unfolding remove_inputs
remove_inputs-IsIndexed [] s h = h
remove_inputs-IsIndexed (i ∷ is) s h =
    remove_inputs-IsIndexed is (remove_utxo i.outpoint s).0 (remove_utxo-IsIndexed i.outpoint s h)

pub add_outputs-IsIndexed :
    (txid : Bytes) (height time index : ℕ) (os : List TxOutput) (s : UtxoSet)
    → IsIndexed s
    → IsIndexed (add_outputs txid height time index os s)
unfolding add_outputs
add_outputs-IsIndexed txid height time index [] s h = h
add_outputs-IsIndexed txid height time index (o ∷ os) s h =
    add_outputs-IsIndexed txid height time (suc index) os _ (add_utxo-IsIndexed _ _ s h)

-- On an indexed set, a transaction, applied or refused, keeps the index and the count exact.
pub apply_transaction-IsIndexed :
    (tx : UtxoTransaction) (height : ℕ) (s : UtxoSet)
    → IsIndexed s
    → IsIndexed (apply_transaction tx height s).0
unfolding apply_transaction
apply_transaction-IsIndexed tx height s h = ground (
  arith,
  add_outputs-IsIndexed tx.hash height tx.timestamp 0 tx.outputs (remove_inputs tx.inputs s)
      (remove_inputs-IsIndexed tx.inputs s h),
)

pub get_utxo-remove_inputs :
    (o : OutPoint) (is : List TxInput) (s : UtxoSet)
    → IsIndexed s
    → get_utxo o (remove_inputs is s) ≡ (if spends o is then none else get_utxo o s)
unfolding remove_inputs spends
get_utxo-remove_inputs o [] s h = refl
get_utxo-remove_inputs o (i ∷ is) s h = ground (
  arith,
  get_utxo-remove_utxo i.outpoint o s h,
  get_utxo-remove_inputs o is (remove_utxo i.outpoint s).0 (remove_utxo-IsIndexed i.outpoint s h),
)

-- Outputs go to outpoints of their own transaction only.
pub get_utxo-add_outputs_ne :
    (o : OutPoint) (txid : Bytes) (height time index : ℕ) (os : List TxOutput) (s : UtxoSet)
    → o.txid ≢ txid
    → get_utxo o (add_outputs txid height time index os s) ≡ get_utxo o s
unfolding add_outputs
get_utxo-add_outputs_ne o txid height time index [] s h = refl
get_utxo-add_outputs_ne o txid height time index (x ∷ os) s h = ground (
  arith,
  h,
  get_utxo-add_outputs_ne o txid height time (suc index) os
      (add_utxo (out_point_at txid index) (utxo_of height time x) s) h,
  get_utxo-add_utxo (out_point_at txid index) o (utxo_of height time x) s,
)

-- What is found at the outpoint of an index from `first` on, in the list of new outputs.
unfoldable pub output_at : ℕ → ℕ → ℕ → ℕ → List TxOutput → Option Utxo
output_at height time first i [] = none
output_at height time first i (o ∷ os) =
    if i == first then some (utxo_of height time o) else output_at height time (suc first) i os

output_at_below :
    (height time first i : ℕ) (os : List TxOutput)
    → i < first
    → output_at height time first i os ≡ none
unfolding output_at
output_at_below height time first i [] h = refl
output_at_below height time first i (o ∷ os) h =
    ground (arith, output_at_below height time (suc first) i os)

-- Each new output is stored under its own index.
pub get_utxo-add_outputs :
    (txid : Bytes) (height time index i : ℕ) (os : List TxOutput) (s : UtxoSet)
    → index + length os ≤ u32_mod
    → i < u32_mod
    → get_utxo (out_point_at txid i) (add_outputs txid height time index os s)
      ≡ or_else (output_at height time index i os) (get_utxo (out_point_at txid i) s)
unfolding add_outputs output_at
get_utxo-add_outputs txid height time index i [] s b c = refl
get_utxo-add_outputs txid height time index i (x ∷ os) s b c = ground (
  arith,
  get_utxo-add_outputs txid height time (suc index) i os
      (add_utxo (out_point_at txid index) (utxo_of height time x) s),
  get_utxo-add_utxo (out_point_at txid index) (out_point_at txid i) (utxo_of height time x) s,
  output_at_below height time (suc index) i os,
)

-- No stored output belongs to the transaction, as far as 2 ^ 32 indices go.
abbrev pub IsFresh : Bytes → ℕ → UtxoSet → Type 0
IsFresh txid index s = (i : ℕ) → index ≤ i → i < u32_mod → get_utxo (out_point_at txid i) s ≡ none

-- Under fresh outpoints the new outputs add their amounts to the supply.
pub supply-add_outputs :
    (txid : Bytes) (height time index : ℕ) (os : List TxOutput) (s : UtxoSet)
    → index + length os ≤ u32_mod
    → IsFresh txid index s
    → supply (add_outputs txid height time index os s) ≡ supply s + sum (λ o. o.amount) os
unfolding add_outputs sum
supply-add_outputs txid height time index [] s b f = omega arith
supply-add_outputs txid height time index (x ∷ os) s b f = ground (
  arith,
  f index (omega arith) (omega arith),
  supply-add_utxo (out_point_at txid index) (utxo_of height time x) s,
  supply-add_outputs txid height time (suc index) os
      (add_utxo (out_point_at txid index) (utxo_of height time x) s) (omega arith) fresh,
)
  where
    fresh : IsFresh txid (suc index) (add_utxo (out_point_at txid index) (utxo_of height time x) s)
    fresh i l c = ground (
      arith,
      f i,
      get_utxo-add_utxo (out_point_at txid index) (out_point_at txid i) (utxo_of height time x) s,
    )
