-- ===== src/Signature/Replay.antt =====
-- src/modules/zk_proof.rs, `verify_transaction_signature`: the signatures used, over many calls.
use mini_block_chain.Prelude.{
  ℕ, ◌≡◌, refl, inl, inr, ite, true, false, ◌&&◌, ◌||◌, not, List, [], ◌∷◌, ◌++◌, arith,
  if◌then◌else◌, Option-cases,
}
use mini_block_chain.Bytes.{Bytes, Text, bytes_discrete}
use mini_block_chain.HashMap.{HashMap, get, upsert}
use mini_block_chain.HashMap.Laws.{get-insert}
use mini_block_chain.External.{Crypto}
use mini_block_chain.Signature.{is_used, used_by, signature_holds, verify_transaction_signature}

is_used-append :
    (t u : Text) (us : List Text)
    → is_used t (us ++ u ∷ [])
      ≡ (if is_used t us then true else ite (bytes_discrete u t) true false)
unfolding is_used
is_used-append t u [] = refl
is_used-append t u (x ∷ us) = ground (arith, is_used-append t u us)

module _ (c : Crypto) where
  used_by-upsert :
      (s s' t : Text) (used : HashMap Bytes (List Text))
      → used_by c s' (upsert bytes_discrete s [] (λ sigs. sigs ++ t ∷ []) used)
        ≡ ite (bytes_discrete s s') (used_by c s used ++ t ∷ []) (used_by c s' used)
  used_by-upsert s s' t used = elim (Option-cases (get bytes_discrete s used)) [
    | inl e ↦ ground (arith, e, get-insert bytes_discrete s s' (t ∷ []) used)
    | inr (sigs, e) ↦ ground (arith, e, get-insert bytes_discrete s s' (sigs ++ t ∷ []) used)
  ]

  module _ (signature sender recipient amount : Text) (nonce : ℕ)
      (used : HashMap Bytes (List Text)) where
    -- A signature is accepted exactly if it holds and was not used by the sender before; and
    -- afterwards the signatures used by each sender are those used before and, for the sender, an
    -- accepted one.
    pub verify_transaction_signature_lem :
        ((verify_transaction_signature c signature sender recipient amount nonce used).0 ≡ (
          signature_holds c signature sender recipient amount nonce
          && not (is_used signature (used_by c sender used))))
        × ((s t : Text)
            → is_used t (
                used_by c s
                  (verify_transaction_signature c signature sender recipient amount nonce used).1)
              ≡ (is_used t (used_by c s used)
                  || ((verify_transaction_signature c signature sender recipient amount nonce
                        used).0
                      && (ite (bytes_discrete sender s) true false
                          && ite (bytes_discrete signature t) true false))))
    unfolding verify_transaction_signature
    verify_transaction_signature_lem = (
      ground arith,
      (λ s t. ground (
        arith,
        used_by-upsert sender s signature used,
        is_used-append t signature (used_by c sender used),
      )),
    )

  -- What is used after any number of further verifications.
  pub data Later (used : HashMap Bytes (List Text)) : HashMap Bytes (List Text) → Type 0 where
    here : Later used used
    next :
        {u : HashMap Bytes (List Text)} (signature sender recipient amount : Text) (nonce : ℕ)
        → Later used u
        → Later used (verify_transaction_signature c signature sender recipient amount nonce u).1

  Later-is_used :
      {used u : HashMap Bytes (List Text)} (s t : Text)
      → Later used u
      → is_used t (used_by c s used) ≡ true
      → is_used t (used_by c s u) ≡ true
  Later-is_used s t here h = h
  Later-is_used s t (next {u} sig sd r a n l) h =
      ground (arith, Later-is_used s t l h, (verify_transaction_signature_lem sig sd r a n u).1 s t)

  -- Once a signature is accepted from a sender it is refused from that sender, for every
  -- recipient, amount and nonce, whatever else is verified in between.
  pub replay_refused :
      (signature sender recipient amount : Text) (nonce : ℕ) (recipient' amount' : Text)
      (nonce' : ℕ) (used : HashMap Bytes (List Text)) {u : HashMap Bytes (List Text)}
      → (verify_transaction_signature c signature sender recipient amount nonce used).0 ≡ true
      → Later (verify_transaction_signature c signature sender recipient amount nonce used).1 u
      → (verify_transaction_signature c signature sender recipient' amount' nonce' u).0 ≡ false
  replay_refused signature sender recipient amount nonce recipient' amount' nonce' used {u} e l =
      ground (
        arith,
        (verify_transaction_signature_lem signature sender recipient' amount' nonce' u).0,
        Later-is_used sender signature l recorded,
      )
    where
      recorded :
          is_used signature (
            used_by c sender
              (verify_transaction_signature c signature sender recipient amount nonce used).1)
          ≡ true
      recorded = ground (
        arith,
        e,
        (verify_transaction_signature_lem signature sender recipient amount nonce used).1 sender
            signature,
      )
