-- ===== src/Client/Payment.antt =====
-- src/modules/requests.rs, `send_transaction_request`, and the check of its signature by a node in
-- src/modules/validation.rs.
use mini_block_chain.Prelude.{
  ℕ, ◌<◌, ◌≡◌, ◌≢◌, ◌⊎◌, refl, sym, ap, ◌∙◌, inl, inr, true, ◌&&◌, not, some, ◌++◌, arith,
  ℕ_discrete, Bool-cases, Option-cases, u64_mod,
}
use mathlib.Core.Path.{subst}
use mathlib.Core.List.{append_cancel_left}
use mini_block_chain.Bytes.{Bytes, Text, le_bytes, bytes_discrete}
use mini_block_chain.Bytes.Encoding.{le_bytes_injective}
use mini_block_chain.Signature.Replay.{verify_transaction_signature_lem}
use mini_block_chain.External.{Json, Key, Crypto}
use mini_block_chain.Merkle.{get_nonce}
use mini_block_chain.Signature.{signature_holds, is_used, used_by, create_transaction_message}
use mini_block_chain.Node.{ValidatorNode, done}
use mini_block_chain.Node.Request.{str_field}
use mini_block_chain.Ledger.Transfer.{or_zero, check_signature}
use mini_block_chain.Client.{false, Bool, NetworkRequest, Carries}
use mini_block_chain.Client.Wallet.{
  Curve, sign_transaction, derive_public_key_from_private_key, send_transaction_request,
}

-- What the documentation of hex and secp256k1 says: hex texts and serialized keys and signatures
-- read back, 32 bytes make a message, and a signature verifies under the key of the secret it was
-- made with.
pub record IsCurve (c : Crypto) (k : Curve) : Type 0 where
  pub decodes : (b : Bytes) → c.hex_decode (c.hex_encode b) ≡ some b
  pub reads_signature : (s : Bytes) → c.signature_from_compact (k.serialize_compact s) ≡ some s
  pub reads_key : (p : Bytes) → c.public_key_from_slice (k.serialize p) ≡ some p
  pub makes_message : (t : Bytes) → (m : Bytes) × (c.message_from_slice (c.sha256 t) ≡ some m)
  pub verifies :
      (m secret : Bytes) → c.verify m (k.sign m secret) (k.public_key_from_secret_key secret) ≡ true

module _ (c : Crypto) (k : Curve) where
  -- What was signed, and by which key.
  pub record IsSigned (sender recipient amount signature : Text) : Type 0 where
    pub secret : Bytes
    pub message : Bytes
    pub sender_is : sender ≡ c.hex_encode (k.serialize (k.public_key_from_secret_key secret))
    pub message_is :
        c.message_from_slice (create_transaction_message c sender recipient amount 0) ≡ some message
    pub signature_is : signature ≡ c.hex_encode (k.serialize_compact (k.sign message secret))

  abbrev signed_text : Text → Text → Text → ℕ → Bytes
  signed_text sender recipient amount nonce = sender ++ (recipient ++ (amount ++ le_bytes 8 nonce))

  -- A signature of the message of a transaction at nonce 0 that verifies for another message, that
  -- of the transaction at another nonce.
  pub record IsForged (sender recipient amount : Text) (nonce : ℕ) : Type 0 where
    pub secret : Bytes
    pub message : Bytes
    pub other : Bytes
    pub differs : other ≢ message
    pub message_is :
        c.message_from_slice (create_transaction_message c sender recipient amount 0) ≡ some message
    pub other_is :
        c.message_from_slice (create_transaction_message c sender recipient amount nonce)
        ≡ some other
    pub accepted :
        c.verify other (k.sign message secret) (k.public_key_from_secret_key secret) ≡ true

  -- Two texts of a transaction, at nonce 0 and at another, that give one message; or a forgery.
  abbrev pub IsBroken : Text → Text → Text → ℕ → Type 0
  IsBroken sender recipient amount nonce =
      (signed_text sender recipient amount nonce ≢ signed_text sender recipient amount 0)
      × ((c.message_from_slice (c.sha256 (signed_text sender recipient amount nonce))
            ≡ c.message_from_slice (c.sha256 (signed_text sender recipient amount 0)))
          ⊎ IsForged sender recipient amount nonce)

  texts_differ :
      (sender recipient amount : Text) (nonce : ℕ)
      → nonce < u64_mod
      → nonce ≢ 0
      → signed_text sender recipient amount nonce ≢ signed_text sender recipient amount 0
  texts_differ sender recipient amount nonce l d e = d (
      le_bytes_injective 8 nonce 0 (omega (arith, l)) (omega arith) (
        append_cancel_left amount (le_bytes 8 nonce) (le_bytes 8 0) (
          append_cancel_left recipient (amount ++ le_bytes 8 nonce) (amount ++ le_bytes 8 0) (
            append_cancel_left sender (recipient ++ (amount ++ le_bytes 8 nonce))
              (recipient ++ (amount ++ le_bytes 8 0)) e))))

  sent-IsSigned :
      (private_key recipient amount : Text) {r : NetworkRequest}
      → send_transaction_request c k private_key recipient amount ≡ some r
      → (sender signature : Text) × (r
          ≡ NetworkRequest.transaction sender signature recipient amount 0)
        × IsSigned sender recipient amount signature
  unfolding send_transaction_request derive_public_key_from_private_key sign_transaction
  sent-IsSigned private_key recipient amount {r} e =
      elim (Option-cases (c.hex_decode private_key)) [
        | inl p ↦ absurd (ground (arith, e, p))
        | inr (key_bytes, p) ↦ elim (Option-cases (k.secret_key_from_slice key_bytes)) [
          | inl q ↦ absurd (ground (arith, e, p, q))
          | inr (secret, q) ↦
              let sender : Text =
                c.hex_encode (k.serialize (k.public_key_from_secret_key secret)) in
              elim (Option-cases
                (c.message_from_slice (create_transaction_message c sender recipient amount 0))) [
                  | inl m ↦ absurd (ground (arith, e, p, q, m))
                  | inr (message, m) ↦
                      let signature : Text =
                        c.hex_encode (k.serialize_compact (k.sign message secret)) in
                      (
                        sender,
                        signature,
                        ground (arith, e, p, q, m),
                        record {
                          secret = secret;
                          message = message;
                          sender_is = refl;
                          message_is = m;
                          signature_is = refl;
                        },
                      )
                ]
        ]
      ]

  module _ (curve : IsCurve c k) {sender recipient amount signature : Text}
      (s : IsSigned sender recipient amount signature) where
    -- The signature holds at a nonce exactly if the curve accepts the message for that nonce.
    holds_by_message :
        (nonce : ℕ) (m : Bytes)
        → c.message_from_slice (create_transaction_message c sender recipient amount nonce) ≡ some m
        → signature_holds c signature sender recipient amount nonce
          ≡ c.verify m (k.sign s.message s.secret) (k.public_key_from_secret_key s.secret)
    unfolding signature_holds
    holds_by_message nonce m e = ground (
      arith,
      e,
      s.signature_is,
      s.sender_is,
      curve.decodes (k.serialize_compact (k.sign s.message s.secret)),
      curve.reads_signature (k.sign s.message s.secret),
      curve.decodes (k.serialize (k.public_key_from_secret_key s.secret)),
      curve.reads_key (k.public_key_from_secret_key s.secret),
    )

    holds_at_zero : signature_holds c signature sender recipient amount 0 ≡ true
    holds_at_zero = holds_by_message 0 s.message s.message_is ∙ curve.verifies s.message s.secret

    -- The message of a transaction always exists.
    message_at :
        (nonce : ℕ)
        → (m : Bytes) × (c.message_from_slice
              (create_transaction_message c sender recipient amount nonce)
            ≡ some m)
    unfolding create_transaction_message
    message_at nonce = curve.makes_message (sender ++ (recipient ++ (amount ++ le_bytes 8 nonce)))

    -- A signature that holds at another nonce shows how the hash or the curve is broken.
    holds-IsBroken :
        (nonce : ℕ)
        → nonce < u64_mod
        → nonce ≢ 0
        → signature_holds c signature sender recipient amount nonce ≡ true
        → IsBroken sender recipient amount nonce
    unfolding create_transaction_message
    holds-IsBroken nonce l d e =
        let (m, found) = message_at nonce in
        (
          texts_differ sender recipient amount nonce l d,
          elim (bytes_discrete m s.message) [
            | yes p ↦ inl (found ∙ ap (λ (t : Bytes). some t) p ∙ sym s.message_is)
            | no p ↦ inr (record {
              secret = s.secret;
              message = s.message;
              other = m;
              differs = p;
              message_is = s.message_is;
              other_is = found;
              accepted = sym (holds_by_message nonce m found) ∙ e;
            })
          ],
        )

  module _ {Value : Type 0} (x : Json Value) where
    -- The nonce that a node has on record for the sender of a request.
    abbrev pub nonce_on_record : Value → ValidatorNode → ℕ
    nonce_on_record v n = or_zero (get_nonce (str_field x Key.sender_public_key v) n.merkle_tree)

    checked :
        (sender recipient amount signature : Text) (v : Value) (n : ValidatorNode)
        → Carries x v (NetworkRequest.transaction sender signature recipient amount 0)
        → (check_signature x c v n).0
          ≡ done (
              signature_holds c signature sender recipient amount (nonce_on_record v n)
              && not (
                  is_used
                    (str_field x Key.signature v)
                    (used_by c (str_field x Key.sender_public_key v) n.used_zk_proofs)))
    checked sender recipient amount signature v n (_, (e, (f, (g, (h, _))))) = ground (
      arith,
      e,
      f,
      g,
      h,
      (verify_transaction_signature_lem c signature sender recipient amount
          (or_zero (get_nonce sender n.merkle_tree)) n.used_zk_proofs).0,
    )

    with_holds : (a b d : Bool) → a ≡ b → done (a && d) ≡ done (b && d)
    with_holds a b d e = ap (λ (t : Bool). done (t && d)) e

    -- A node that checks the signature of a transaction that was sent, where the nonce on record
    -- fits a u64: if that nonce is 0, it accepts it exactly if the sender did not use the signature
    -- before; else it refuses it, since the client signs at nonce 0 always, or the hash or the curve
    -- is broken: either the texts of this transaction at the two nonces, which differ, give one
    -- message, or the signature of the message at nonce 0 verifies for the other message at the
    -- nonce on record.
    pub check_sent_transaction :
        (private_key recipient amount : Text) {r : NetworkRequest} (v : Value) (n : ValidatorNode)
        → IsCurve c k
        → send_transaction_request c k private_key recipient amount ≡ some r
        → Carries x v r
        → nonce_on_record v n < u64_mod
        → ((nonce_on_record v n ≡ 0)
            × ((check_signature x c v n).0
                ≡ done (
                    not (
                      is_used
                        (str_field x Key.signature v)
                        (used_by c (str_field x Key.sender_public_key v) n.used_zk_proofs)))))
          ⊎ ((nonce_on_record v n ≢ 0)
              × (((check_signature x c v n).0 ≡ done false)
                  ⊎ IsBroken
                      (str_field x Key.sender_public_key v)
                      recipient
                      amount
                      (nonce_on_record v n)))
    check_sent_transaction private_key recipient amount {r} v n curve e h l =
        let (sender, signature, q, s) = sent-IsSigned private_key recipient amount e in
        let carried = subst (λ (t : NetworkRequest). Carries x v t) q h in
        let outcome = checked sender recipient amount signature v n carried in
        let same : str_field x Key.sender_public_key v ≡ sender = ground (arith, carried.1.0) in
        let nonce : ℕ = nonce_on_record v n in
        elim (ℕ_discrete nonce 0) [
          | yes zero ↦ inl (
            zero,
            outcome
                ∙ with_holds _ _ _ (
                    ap (signature_holds c signature sender recipient amount) zero
                    ∙ holds_at_zero curve s),
          )
          | no d ↦ inr (
            d,
            elim (Bool-cases (signature_holds c signature sender recipient amount nonce)) [
              | inr f ↦ inl (outcome ∙ with_holds _ _ _ f)
              | inl t ↦ inr (
                  subst (λ (t : Text). IsBroken t recipient amount nonce) (sym same)
                    (holds-IsBroken curve s nonce l d t))
            ],
          )
        ]
