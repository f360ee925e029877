-- ===== src/Utxo/Spending.antt =====
-- src/modules/utxo.rs, `apply_transaction` as a whole: when it is applied, and what it leaves of
-- the set.
use mini_block_chain.Prelude.{
  ℕ, ◌≤◌, ◌<◌, ◌≡◌, refl, ap, ◌∙◌, ◌≢◌, ◌⊎◌, inl, inr, if_pos, true, false, none, List, [], ◌∷◌,
  arith, if◌then◌else◌, Bool-cases, length, All, u32_mod,
}
use mini_block_chain.Utxo.{OutPoint, out_point_discrete, TxInput, UtxoTransaction}
use mini_block_chain.Utxo.Set.{UtxoSet, get_utxo, contains}
use mini_block_chain.Utxo.Apply.{
  out_point_at, Applied, check_inputs, remove_inputs, add_outputs, apply_transaction,
}
use mini_block_chain.Utxo.Index.{IsIndexed}
use mini_block_chain.Utxo.Supply.{
  spends, get_utxo-remove_inputs, get_utxo-add_outputs_ne, get_utxo-add_outputs, output_at, or_else,
}

-- An input is missing if its outpoint is not stored.
abbrev pub IsStored : UtxoSet → TxInput → Type 0
IsStored s i = contains i.outpoint s ≡ true

-- How the check of the inputs ends, in terms of the set alone.
abbrev pub Checked : List TxInput → UtxoSet → Applied → Type 0
Checked is s Applied.ok = All (IsStored s) is
Checked is s (Applied.not_found o) = (contains o s ≡ false) × (spends o is ≡ true)

Checked-cons :
    (i : TxInput) (is : List TxInput) (s : UtxoSet) (r : Applied)
    → IsStored s i
    → Checked is s r
    → Checked (i ∷ is) s r
unfolding spends
Checked-cons i is s Applied.ok h c = (h, c)
Checked-cons i is s (Applied.not_found o) h c = (c.0, ground (arith, c.1))

pub check_inputs-Checked : (is : List TxInput) (s : UtxoSet) → Checked is s (check_inputs is s)
unfolding check_inputs spends
check_inputs-Checked [] s = tt
check_inputs-Checked (i ∷ is) s = elim (Bool-cases (contains i.outpoint s)) [
  | inl e ↦ rw (e, check_inputs) (Checked-cons i is s _ e (check_inputs-Checked is s))
  | inr e ↦ rw (e, check_inputs) (e, if_pos (out_point_discrete i.outpoint i.outpoint) refl _ _)
]

check_inputs_ok :
    (is : List TxInput) (s : UtxoSet) → All (IsStored s) is → check_inputs is s ≡ Applied.ok
unfolding check_inputs
check_inputs_ok [] s h = refl
check_inputs_ok (i ∷ is) s h = ground (arith, h.0, check_inputs_ok is s h.1)

contains-get_utxo : (o : OutPoint) (s : UtxoSet) → get_utxo o s ≡ none → contains o s ≡ false
unfolding contains get_utxo
contains-get_utxo o s e = ground (arith, e)

not-IsStored :
    (o : OutPoint) (is : List TxInput) (s : UtxoSet)
    → contains o s ≡ false
    → spends o is ≡ true
    → ¬ All (IsStored s) is
unfolding spends
not-IsStored o [] s h e a = cc
not-IsStored o (i ∷ is) s h e a = ground (arith, a.0, not-IsStored o is s h, a.1)

-- A transaction is applied, and every input is stored; or it is refused for an outpoint that an
-- input names and that is not stored, and the set is as it was.
pub apply_transaction_lem :
    (tx : UtxoTransaction) (height : ℕ) (s : UtxoSet)
    → (((apply_transaction tx height s).1 ≡ Applied.ok) × All (IsStored s) tx.inputs)
      ⊎ ((o : OutPoint) × (apply_transaction tx height s ≡ (s, Applied.not_found o))
          × (contains o s ≡ false)
          × (spends o tx.inputs ≡ true))
unfolding apply_transaction
apply_transaction_lem tx height s =
    go (check_inputs tx.inputs s) refl (check_inputs-Checked tx.inputs s)
  where
    go :
        (r : Applied)
        → check_inputs tx.inputs s ≡ r
        → Checked tx.inputs s r
        → (((apply_transaction tx height s).1 ≡ Applied.ok) × All (IsStored s) tx.inputs)
          ⊎ ((o : OutPoint) × (apply_transaction tx height s ≡ (s, Applied.not_found o))
              × (contains o s ≡ false)
              × (spends o tx.inputs ≡ true))
    go Applied.ok e c = inl (rw (e, apply_transaction), c)
    go (Applied.not_found o) e c = inr (o, rw (e, apply_transaction), c.0, c.1)

pub applied_ok :
    (tx : UtxoTransaction) (height : ℕ) (s : UtxoSet)
    → All (IsStored s) tx.inputs
    → apply_transaction tx height s ≡ (
      add_outputs tx.hash height tx.timestamp 0 tx.outputs (remove_inputs tx.inputs s),
      Applied.ok,
    )
unfolding apply_transaction
applied_ok tx height s h = rw (check_inputs_ok tx.inputs s h, apply_transaction)

-- What an applied transaction leaves, at the outpoints of others and at its own.
get_utxo_after :
    (tx : UtxoTransaction) (height : ℕ) (s : UtxoSet)
    → IsIndexed s
    → (apply_transaction tx height s).1 ≡ Applied.ok
    → ((o : OutPoint)
        → o.txid ≢ tx.hash
        → get_utxo o (apply_transaction tx height s).0
          ≡ (if spends o tx.inputs then none else get_utxo o s))
      × ((i : ℕ)
          → length tx.outputs ≤ u32_mod
          → i < u32_mod
          → get_utxo (out_point_at tx.hash i) (apply_transaction tx height s).0
            ≡ or_else (output_at height tx.timestamp 0 i tx.outputs) (
                if spends (out_point_at tx.hash i) tx.inputs
                then none
                else get_utxo (out_point_at tx.hash i) s))
get_utxo_after tx height s h e = elim (apply_transaction_lem tx height s) [
  | inl (q, all) ↦ rw (applied_ok tx height s all) (
    (λ o other.
        get_utxo-add_outputs_ne o tx.hash height tx.timestamp 0 tx.outputs _ other
        ∙ get_utxo-remove_inputs o tx.inputs s h),
    (λ i b c.
        get_utxo-add_outputs tx.hash height tx.timestamp 0 i tx.outputs _ (omega arith) c
        ∙ ap (or_else (output_at height tx.timestamp 0 i tx.outputs))
            (get_utxo-remove_inputs (out_point_at tx.hash i) tx.inputs s h)),
  )
  | inr (o, q, _, _) ↦ absurd (cc (ap (λ (r : UtxoSet × Applied). r.1) q))
]

-- On an indexed set, after an applied transaction an outpoint of another transaction holds what it
-- held, or nothing if an input names it.
pub get_utxo-apply_transaction_other :
    (tx : UtxoTransaction) (height : ℕ) (o : OutPoint) (s : UtxoSet)
    → IsIndexed s
    → (apply_transaction tx height s).1 ≡ Applied.ok
    → o.txid ≢ tx.hash
    → get_utxo o (apply_transaction tx height s).0
      ≡ (if spends o tx.inputs then none else get_utxo o s)
get_utxo-apply_transaction_other tx height o s h e = (get_utxo_after tx height s h e).0 o

-- On an indexed set, after an applied transaction of no more outputs than a u32 numbers, its own
-- outpoint of each u32 index holds the output of that index; past the outputs it holds what it
-- held, or nothing if an input names it.
pub get_utxo-apply_transaction_own :
    (tx : UtxoTransaction) (height i : ℕ) (s : UtxoSet)
    → IsIndexed s
    → (apply_transaction tx height s).1 ≡ Applied.ok
    → length tx.outputs ≤ u32_mod
    → i < u32_mod
    → get_utxo (out_point_at tx.hash i) (apply_transaction tx height s).0
      ≡ or_else (output_at height tx.timestamp 0 i tx.outputs) (
          if spends (out_point_at tx.hash i) tx.inputs
          then none
          else get_utxo (out_point_at tx.hash i) s)
get_utxo-apply_transaction_own tx height i s h e = (get_utxo_after tx height s h e).1 i

-- No double spending, on an indexed set: once a transaction is applied, an outpoint of another
-- transaction that one of its inputs names is gone, and every transaction that names it is then
-- refused, for an outpoint, and changes nothing.
pub no_double_spend :
    (tx later : UtxoTransaction) (height height' : ℕ) (o : OutPoint) (s : UtxoSet)
    → IsIndexed s
    → (apply_transaction tx height s).1 ≡ Applied.ok
    → spends o tx.inputs ≡ true
    → o.txid ≢ tx.hash
    → spends o later.inputs ≡ true
    → let s' = (apply_transaction tx height s).0 in
      (get_utxo o s' ≡ none)
      × ((o' : OutPoint) × (apply_transaction later height' s' ≡ (s', Applied.not_found o')))
no_double_spend tx later height height' o s h e sp other sp' = (gone, refused)
  where
    s' : UtxoSet
    s' = (apply_transaction tx height s).0

    gone : get_utxo o s' ≡ none
    gone = ground (arith, get_utxo-apply_transaction_other tx height o s h e other)

    refused : (o' : OutPoint) × (apply_transaction later height' s' ≡ (s', Applied.not_found o'))
    refused = elim (apply_transaction_lem later height' s') [
      | inl (_, all) ↦ absurd (not-IsStored o later.inputs s' (contains-get_utxo o s' gone) sp' all)
      | inr (o', q, _, _) ↦ (o', q)
    ]
