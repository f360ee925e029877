-- ===== src/Ledger/Overdraft.antt =====
-- src/modules/validation.rs: two transfers of one account whose verifications both come before the
-- first of their writes, as the tasks of two requests may interleave.
use mini_block_chain.Prelude.{
  ℕ, ◌+◌, ◌-◌, ◌<◌, ◌≡◌, refl, sym, ◌∙◌, Bool, true, ite, some, arith, checked_sub,
}
use mini_block_chain.Bytes.{bytes_discrete}
use mini_block_chain.External.{Json, Key, Crypto}
use mini_block_chain.Merkle.{Account, account_exists, get_account_balance, get_nonce}
use mini_block_chain.Node.{ValidatorNode, done, panicked}
use mini_block_chain.Node.Request.{str_field, amount_field}
use mini_block_chain.Ledger.Transfer.{
  or_zero, add_transaction_to_ledger, verify_transaction_independently,
}
use mini_block_chain.Ledger.Verdict.{
  known_balance, is_acceptable, verify_transaction_independently_lem,
}
use mini_block_chain.Ledger.Payment.{IsPayable, add_transaction_to_ledger_lem}

module _ {Value : Type 0} (x : Json Value) (c : Crypto) where
  -- A transfer of more than the sender has is not written: the subtraction panics.
  uncovered :
      (r : Value) (time : ℕ) (n : ValidatorNode) (bs br nonce : ℕ)
      → get_account_balance (str_field x Key.sender_public_key r) n.merkle_tree ≡ some bs
      → get_account_balance (str_field x Key.recipient_public_key r) n.merkle_tree ≡ some br
      → get_nonce (str_field x Key.sender_public_key r) n.merkle_tree ≡ some nonce
      → bs < amount_field x r
      → add_transaction_to_ledger x c r time n ≡ (panicked, n)
  unfolding add_transaction_to_ledger checked_sub
  uncovered r time n bs br nonce es er en short = ground (arith, es, er, en, short)

  -- Verification keeps the tree.
  kept :
      (r : Value) (n : ValidatorNode)
      → (verify_transaction_independently x c r n).1.merkle_tree ≡ n.merkle_tree
  kept r n = ground (arith, verify_transaction_independently_lem x c r n)

  IsPayable-later :
      (r : Value) (n n' : ValidatorNode) (old_s old_r : ℕ) (a : Account)
      → n'.merkle_tree ≡ n.merkle_tree
      → IsPayable x c r n old_s old_r a
      → IsPayable x c r n' old_s old_r a
  IsPayable-later r n n' old_s old_r a e p = record {
    consistent = rw e p.consistent;
    sender_balance = rw e p.sender_balance;
    recipient_balance = rw e p.recipient_balance;
    sender_account = rw e p.sender_account;
    covered = p.covered;
    fits = p.fits;
    countable = p.countable;
  }

  recipient_known :
      (r : Value) (n : ValidatorNode)
      → is_acceptable x c r n ≡ true
      → account_exists (str_field x Key.recipient_public_key r) n.merkle_tree ≡ true
  recipient_known r n e = ground (arith, e)

  done_injective : {b b' : Bool} → done b ≡ done b' → b ≡ b'
  done_injective e = cc e

  -- Two writes in turn, whatever was verified before.
  writes_panic :
      (r r' : Value) (time time' : ℕ) (n : ValidatorNode) (old_s old_r b : ℕ) (a : Account)
      → IsPayable x c r n old_s old_r a
      → ¬ (str_field x Key.recipient_public_key r ≡ str_field x Key.sender_public_key r)
      → str_field x Key.sender_public_key r' ≡ str_field x Key.sender_public_key r
      → get_account_balance (str_field x Key.recipient_public_key r') n.merkle_tree ≡ some b
      → old_s < amount_field x r + amount_field x r'
      → let (outcome, written) = add_transaction_to_ledger x c r time n in
        (outcome ≡ done tt) × (add_transaction_to_ledger x c r' time' written ≡ (panicked, written))
  writes_panic r r' time time' n old_s old_r b a p other same found short =
      let (n', runs, _, change, _, _) =
        add_transaction_to_ledger_lem x c r time n old_s old_r a p in
      rw runs (
        refl,
        uncovered r' time' n' (old_s - amount_field x r)
            (ite
              (bytes_discrete (str_field x Key.recipient_public_key r)
                (str_field x Key.recipient_public_key r'))
              (old_r + amount_field x r)
              (ite
                (bytes_discrete (str_field x Key.sender_public_key r)
                  (str_field x Key.recipient_public_key r'))
                (old_s - amount_field x r) b))
            (a.nonce + 1)
            (rw same (ground (arith, (change (str_field x Key.sender_public_key r)).0, other)))
            (ground (arith, (change (str_field x Key.recipient_public_key r')).0, found))
            (rw same (ground (arith, (change (str_field x Key.sender_public_key r)).1)))
            (ground (arith, short)),
      )

  -- A transfer that a node has verified while another of the same sender was under way: if the
  -- other one, between two accounts, is payable and the sender's balance does not cover both, then
  -- the write of the other ends, and the write of this one then panics and changes nothing.
  pub second_transfer_panics :
      (r r' : Value) (time time' : ℕ) (n : ValidatorNode) (old_s old_r : ℕ) (a : Account)
      → IsPayable x c r n old_s old_r a
      → ¬ (str_field x Key.recipient_public_key r ≡ str_field x Key.sender_public_key r)
      → str_field x Key.sender_public_key r' ≡ str_field x Key.sender_public_key r
      → (verify_transaction_independently x c r' n).0 ≡ done true
      → old_s < amount_field x r + amount_field x r'
      → let verified = (verify_transaction_independently x c r' n).1 in
        let (outcome, written) = add_transaction_to_ledger x c r time verified in
        (outcome ≡ done tt) × (add_transaction_to_ledger x c r' time' written ≡ (panicked, written))
  second_transfer_panics r r' time time' n old_s old_r a p other same accepted short =
      let e = kept r' n in
      writes_panic r r' time time' (verify_transaction_independently x c r' n).1 old_s old_r
        (or_zero (get_account_balance (str_field x Key.recipient_public_key r') n.merkle_tree)) a
        (IsPayable-later r n (verify_transaction_independently x c r' n).1 old_s old_r a e p) other
        same
        (rw e (
          known_balance (str_field x Key.recipient_public_key r') n.merkle_tree (
            recipient_known r' n
              (done_injective (sym (verify_transaction_independently_lem x c r' n).0 ∙ accepted)))))
        short
