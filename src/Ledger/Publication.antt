-- ===== src/Ledger/Publication.antt =====
-- src/modules/validation.rs, `add_utxo_transaction_to_ledger`: what the write of a UTXO transaction
-- does to the set and to the chain, with what the other tasks do between its locks.
use mini_block_chain.Prelude.{
  List, ℕ, ◌≤◌, ◌<◌, ◌≡◌, ◌≢◌, refl, ◌⊎◌, inl, inr, true, false, none, some, [], ◌∷◌, ◌++◌, arith,
  if◌then◌else◌, length, All, u32_mod,
}
use mini_block_chain.External.{Json, Crypto}
use mini_block_chain.Utxo.{OutPoint, TxInput, UtxoTransaction}
use mini_block_chain.Utxo.Set.{UtxoSet, get_utxo, contains}
use mini_block_chain.Utxo.Index.{IsIndexed}
use mini_block_chain.Utxo.Apply.{Applied, out_point_at, apply_transaction}
use mini_block_chain.Utxo.Supply.{spends, output_at, or_else, apply_transaction-IsIndexed}
use mini_block_chain.Utxo.Spending.{
  IsStored, apply_transaction_lem, get_utxo-apply_transaction_other, get_utxo-apply_transaction_own,
}
use mini_block_chain.Chain.{
  Block, request_address, pushed, push_block_to_chain, set_block_hash, first_public_key,
}
use mini_block_chain.Node.{ValidatorNode, Outcome, done, panicked}
use mini_block_chain.Ledger.{List, Schedule}
use mini_block_chain.Ledger.Spend.{parse_transaction, add_utxo_transaction_to_ledger}

-- The set after a transaction: what it spends is gone, its outputs are there, nothing else changes.
pub record IsPaid (tx : UtxoTransaction) (height : ℕ) (s paid : UtxoSet) : Type 0 where
  pub indexed : IsIndexed paid
  pub others :
      (o : OutPoint)
      → o.txid ≢ tx.hash
      → get_utxo o paid ≡ (if spends o tx.inputs then none else get_utxo o s)
  pub own :
      (i : ℕ)
      → i < u32_mod
      → get_utxo (out_point_at tx.hash i) paid
        ≡ or_else (output_at height tx.timestamp 0 i tx.outputs) (
            if spends (out_point_at tx.hash i) tx.inputs
            then none
            else get_utxo (out_point_at tx.hash i) s)

apply_transaction-IsPaid :
    (tx : UtxoTransaction) (height : ℕ) (s : UtxoSet)
    → IsIndexed s
    → length tx.outputs ≤ u32_mod
    → (apply_transaction tx height s).1 ≡ Applied.ok
    → IsPaid tx height s (apply_transaction tx height s).0
apply_transaction-IsPaid tx height s h l e = record {
  indexed = apply_transaction-IsIndexed tx height s h;
  others = λ o other. get_utxo-apply_transaction_other tx height o s h e other;
  own = λ i b. get_utxo-apply_transaction_own tx height i s h e l b;
}

module _ (c : Crypto) (tx : UtxoTransaction) (height : ℕ) where
  abbrev pub block : Block
  block = Block.utxo_transaction tx height []

  -- How the write ends, from the node at which it pushes the block: with the block at the end of
  -- the chain, or, without an input, in a panic.
  abbrev pub IsPublished : ValidatorNode → Outcome (Unit {0}) × ValidatorNode → Type 0
  IsPublished n (outcome, n') =
      ((tx.inputs ≡ []) × (outcome ≡ panicked) × (n' ≡ n))
      ⊎ ((tx.inputs ≢ [])
          × (outcome ≡ done tt)
          × (n'.blockchain.chain ≡ n.blockchain.chain ++ set_block_hash c.sha256 block ∷ [])
          × (n' ≡ record n { blockchain = n'.blockchain }))

module _ {Value : Type 0} (x : Json Value) (c : Crypto) where
  -- Once the transaction is applied, the push of its block decides.
  pub after_payment :
      (r : Value) (tx : UtxoTransaction) (s : Schedule) (n : ValidatorNode)
      → parse_transaction x c r ≡ some tx
      → let height = length n.blockchain.chain in
        let m = s.height_read n in
        let applied = apply_transaction tx height m.utxo_set in
        let m' : ValidatorNode = s.spent (record m { utxo_set = applied.0 }) in
        applied.1 ≡ Applied.ok
        → add_utxo_transaction_to_ledger x c r s n ≡ elim (first_public_key tx.inputs) [
          | none ↦ (panicked, m')
          | some k ↦ (
            done tt,
            record m' { blockchain = pushed c.sha256 (block c tx height) k m'.blockchain },
          )
        ]
  unfolding add_utxo_transaction_to_ledger push_block_to_chain request_address
  after_payment r tx s n parsed ok = rw (parsed, add_utxo_transaction_to_ledger, ok) (ground arith)

  push-IsPublished :
      (tx : UtxoTransaction) (height : ℕ) (n : ValidatorNode)
      → IsPublished c tx height n (elim (first_public_key tx.inputs) [
        | none ↦ (panicked, n)
        | some k ↦
            (done tt, record n { blockchain = pushed c.sha256 (block c tx height) k n.blockchain })
      ])
  push-IsPublished tx height n = on tx.inputs refl
    where
      on :
          (is : List TxInput)
          → tx.inputs ≡ is
          → IsPublished c tx height n (elim (first_public_key tx.inputs) [
            | none ↦ (panicked, n)
            | some k ↦ (
              done tt,
              record n { blockchain = pushed c.sha256 (block c tx height) k n.blockchain },
            )
          ])
      on [] e = inl (e, ground (arith, e), ground (arith, e))
      on (i ∷ is) e = inr (λ f. cc (e, f), ground (arith, e), ground (arith, e), ground (arith, e))

  -- The write of a UTXO transaction, in full, whatever other tasks do after it reads the height and
  -- after it writes the set; the set is indexed when it is locked, and a u32 numbers the outputs.
  -- Either an input names an outpoint that is not in the set then, and the write changes nothing;
  -- or all inputs are stored then, and in the set that it leaves to the other tasks what the inputs
  -- name is gone, the outputs are there at the height that was read, and nothing else is changed.
  -- Then the chain as it is by now grows by the block at that height and nothing else changes; but
  -- without an input it panics there, with the set written and no block.
  pub add_utxo_transaction_to_ledger_lem :
      (r : Value) (tx : UtxoTransaction) (s : Schedule) (n : ValidatorNode)
      → parse_transaction x c r ≡ some tx
      → IsIndexed (s.height_read n).utxo_set
      → length tx.outputs ≤ u32_mod
      → let height = length n.blockchain.chain in
        let m = s.height_read n in
        ((o : OutPoint) × (spends o tx.inputs ≡ true)
          × (contains o m.utxo_set ≡ false)
          × (add_utxo_transaction_to_ledger x c r s n ≡ (done tt, m)))
        ⊎ ((paid : UtxoSet) × All (IsStored m.utxo_set) tx.inputs
            × IsPaid tx height m.utxo_set paid
            × IsPublished c tx height
                (s.spent (record m { utxo_set = paid }))
                (add_utxo_transaction_to_ledger x c r s n))
  unfolding add_utxo_transaction_to_ledger
  add_utxo_transaction_to_ledger_lem r tx s n parsed h l =
      let height = length n.blockchain.chain in
      let set = (s.height_read n).utxo_set in
      elim (apply_transaction_lem tx height set) [
        | inl (ok, all) ↦ inr (
          (apply_transaction tx height set).0,
          all,
          apply_transaction-IsPaid tx height set h l ok,
          rw (after_payment r tx s n parsed ok) (push-IsPublished tx height _),
        )
        | inr (o, e, absent, named) ↦ inl (o, named, absent, ground (arith, parsed, e))
      ]
