-- ===== src/Client/Tests.antt =====
-- Examples: JSON values as the senders write them, a wallet over a toy curve, a question to a peer
-- and its answer, and a node that finds its first port taken.
use mini_block_chain.Prelude.{
  ℕ, ◌+◌, u32_mod, ◌<◌, ◌≡◌, ◌≢◌, refl, ◌⊎◌, ite, Bool, true, false, not, Option, none, some, List,
  [], ◌∷◌, ◌++◌, map, arith, All,
}
use mini_block_chain.Bytes.{Bytes, Text, bytes_discrete, codes, le_bytes}
use mini_block_chain.HashMap.{get}
use mini_block_chain.External.{Json, Key, Crypto}
use mini_block_chain.Merkle.{get_nonce, find_account}
use mini_block_chain.Signature.{is_used, used_by, create_transaction_message}
use mini_block_chain.Node.{ValidatorNode, done, new}
use mini_block_chain.Node.Request.{str_field, hash_network_request}
use mini_block_chain.Consensus.{
  Answer, handle_consensus_request, handle_consensus_response, votes_of,
}
use mini_block_chain.Ledger.Transfer.{check_signature}
use mini_block_chain.Client.{NetworkRequest, Carries}
use mini_block_chain.Client.Wallet.{
  Curve, send_transaction_request, derive_public_key_from_private_key, sign_transaction,
}
use mini_block_chain.Client.Payment.{IsCurve, IsBroken, nonce_on_record, check_sent_transaction}
use mini_block_chain.Client.Delivery.{question_and_answer}
use mini_block_chain.Client.Ports.{
  PortConfig, Config, Binding, address_of, try_bind_to_ports, IsRefused, failure, last_refusal,
  try_bind_to_ports_lem,
}

data Sent : Type 0 where
  nothing : Sent
  text : Text → Sent
  number : ℕ → Sent
  numbers : List ℕ → Sent
  boolean : Bool → Sent
  object : (Key → Sent) → Sent

abbrev field : Sent → Key → Sent
field (Sent.object f) k = f k
field _ k = Sent.nothing

abbrev text_of : Sent → Option Text
text_of (Sent.text t) = some t
text_of _ = none

abbrev number_of : Sent → Option ℕ
number_of (Sent.number n) = some n
number_of _ = none

abbrev boolean_of : Sent → Option Bool
boolean_of (Sent.boolean b) = some b
boolean_of _ = none

abbrev array_of : Sent → Option (List Sent)
array_of (Sent.numbers ns) = some (map (λ n. Sent.number n) ns)
array_of _ = none

abbrev parsed : Json Sent
parsed = record {
  index = field;
  as_str = text_of;
  as_u64 = number_of;
  as_bool = boolean_of;
  as_array = array_of;
  to_string = λ r. [];
  to_tx_input = λ r. none;
  to_tx_output = λ r. none;
}

-- Nothing is encoded, and a signature is the message that it signs.
abbrev same_bytes : Bytes → Bytes → Bool
same_bytes a b = ite (bytes_discrete a b) true false

abbrev plain : Crypto
plain = record {
  sha256 = λ b. b;
  hex_encode = λ b. b;
  hex_decode = λ t. some t;
  signature_from_compact = λ b. some b;
  public_key_from_slice = λ b. some b;
  message_from_slice = λ b. some b;
  verify = λ message signature key. same_bytes message signature;
}

abbrev curve : Curve
curve = record {
  secret_key_from_slice = λ b. some b;
  public_key_from_secret_key = λ b. 2 ∷ b;
  serialize = λ b. b;
  sign = λ message secret. message;
  serialize_compact = λ b. b;
  secret_text = λ b. b;
  public_text = λ b. b;
}

plain-IsCurve : IsCurve plain curve
plain-IsCurve = record {
  decodes = λ b. refl;
  reads_signature = λ s. refl;
  reads_key = λ p. refl;
  makes_message = λ t. (t, refl);
  verifies = λ m secret. ground arith;
}

-- A payment of 5, and the JSON value that a node parses of it.
abbrev payment : NetworkRequest
payment =
    NetworkRequest.transaction (2 ∷ codes "k")
      ((2 ∷ codes "k") ++ (codes "bob" ++ (codes "5" ++ 0 ∷ 0 ∷ 0 ∷ 0 ∷ 0 ∷ 0 ∷ 0 ∷ 0 ∷ [])))
      (codes "bob") (codes "5") 0

payment_sent :
    send_transaction_request plain curve (codes "k") (codes "bob") (codes "5") ≡ some payment
unfolding send_transaction_request derive_public_key_from_private_key sign_transaction
    create_transaction_message le_bytes
payment_sent = refl

abbrev payment_fields : Key → Sent
payment_fields Key.action = Sent.text (codes "Transaction")
payment_fields Key.sender_public_key = Sent.text (2 ∷ codes "k")
payment_fields Key.signature =
    Sent.text
      ((2 ∷ codes "k") ++ (codes "bob" ++ (codes "5" ++ 0 ∷ 0 ∷ 0 ∷ 0 ∷ 0 ∷ 0 ∷ 0 ∷ 0 ∷ [])))
payment_fields Key.recipient_public_key = Sent.text (codes "bob")
payment_fields Key.amount = Sent.text (codes "5")
payment_fields Key.nonce = Sent.number 0
payment_fields _ = Sent.nothing

payment-Carries : Carries parsed (Sent.object payment_fields) payment
payment-Carries = (refl, (refl, (refl, (refl, (refl, (refl, tt))))))

-- A node on which the sender has sent one transaction already.
abbrev knowing : ValidatorNode
knowing = record (new 0) {
  merkle_tree = record {
    root = none;
    accounts_vec =
        record { public_key = 2 ∷ codes "k"; public_key_hash = []; balance = 80; nonce = 1 } ∷ [];
    accounts_map = (2 ∷ codes "k", 80) ∷ [];
  };
}

abbrev sent_payment : Sent
sent_payment = Sent.object payment_fields

knows_one : nonce_on_record plain curve parsed sent_payment knowing ≡ 1
unfolding get_nonce find_account bytes_discrete
knows_one = refl

check_sent_transaction_example :
    ((nonce_on_record plain curve parsed sent_payment knowing ≡ 0)
      × ((check_signature parsed plain sent_payment knowing).0
          ≡ done (
              not (
                is_used
                  (str_field parsed Key.signature sent_payment)
                  (used_by plain (2 ∷ codes "k") knowing.used_zk_proofs)))))
    ⊎ ((nonce_on_record plain curve parsed sent_payment knowing ≢ 0)
        × (((check_signature parsed plain sent_payment knowing).0 ≡ done false)
            ⊎ IsBroken plain curve
                (2 ∷ codes "k")
                (codes "bob")
                (codes "5")
                (nonce_on_record plain curve parsed sent_payment knowing)))
check_sent_transaction_example =
    check_sent_transaction plain curve parsed (codes "k") (codes "bob") (codes "5") sent_payment
      knowing plain-IsCurve payment_sent payment-Carries (omega (arith, knows_one))

-- A node that listens at port 7 asks about a request whose hash is 9, 8.
abbrev hashing : Crypto
hashing = record plain { sha256 = λ b. 9 ∷ 8 ∷ [] }

abbrev asker : ValidatorNode
asker = record (new 0) { client_port_address = codes "h:7" }

abbrev peer : ValidatorNode
peer = record (new 0) { client_decisions = (9 ∷ 8 ∷ [], false) ∷ [] }

abbrev question_fields : Key → Sent
question_fields Key.action = Sent.text (codes "ConsensusRequest")
question_fields Key.request_hash = Sent.numbers (9 ∷ 8 ∷ [])
question_fields Key.response_port = Sent.text (codes "h:7")
question_fields _ = Sent.nothing

abbrev answer_fields : Key → Sent
answer_fields Key.action = Sent.text (codes "ConsensusResponse")
answer_fields Key.request_hash = Sent.numbers (9 ∷ 8 ∷ [])
answer_fields Key.decision = Sent.boolean false
answer_fields _ = Sent.nothing

abbrev asked : NetworkRequest
asked = NetworkRequest.consensus_request (9 ∷ 8 ∷ []) (codes "h:7")

asked-Carries : Carries parsed (Sent.object question_fields) asked
asked-Carries = (refl, ((Sent.number 9 ∷ Sent.number 8 ∷ [], refl, refl), (refl, tt)))

decided : get bytes_discrete (9 ∷ 8 ∷ []) peer.client_decisions ≡ some false
unfolding get bytes_discrete
decided = refl

abbrev answer : Answer
answer = record {
  request_hash = hash_network_request parsed hashing.sha256 Sent.nothing;
  decision = false;
  response_port = codes "h:7";
}

no_votes : (votes_of (9 ∷ 8 ∷ []) asker).0 + (votes_of (9 ∷ 8 ∷ []) asker).1 + 1 < u32_mod
unfolding get new
no_votes = omega arith

question_and_answer_example :
    let (outcome, asker') =
      handle_consensus_response parsed hashing.sha256 (Sent.object answer_fields) asker in
    (handle_consensus_request parsed hashing.sha256 (Sent.object question_fields) peer
      ≡ (done answer, peer))
    × (outcome ≡ done tt)
    × ((h : Bytes)
        → votes_of h asker'
          ≡ ite
              (bytes_discrete (hash_network_request parsed hashing.sha256 Sent.nothing) h)
              ((votes_of (9 ∷ 8 ∷ []) asker).0, (votes_of (9 ∷ 8 ∷ []) asker).1 + 1)
              (votes_of h asker))
    × (asker'.client_decisions ≡ asker.client_decisions)
unfolding hash_network_request
question_and_answer_example =
    question_and_answer parsed hashing Sent.nothing (Sent.object question_fields)
      (Sent.object answer_fields) asker peer false (omega arith, (omega arith, tt)) asked-Carries
      decided (refl, (Sent.number 9 ∷ Sent.number 8 ∷ [], refl, refl), refl) no_votes

-- The first of two ports is taken.
abbrev port_at : ℕ → PortConfig
port_at k = record { id = []; address = codes "h"; port = k }

abbrev taken : Text → Option Text
taken t = ite (bytes_discrete t (address_of (port_at 80))) (some (codes "in use")) none

try_bind_to_ports_lem_example :
    ((before : List PortConfig) × (p : PortConfig) × (behind : List PortConfig) × (port_at 80
          ∷ port_at 81
          ∷ []
        ≡ before ++ p ∷ behind)
      × All (IsRefused taken) before
      × (taken (address_of p) ≡ none)
      × (try_bind_to_ports taken (Config.nodes (port_at 80 ∷ port_at 81 ∷ []))
          ≡ Binding.bound (address_of p)))
    ⊎ (All (IsRefused taken) (port_at 80 ∷ port_at 81 ∷ [])
        × (try_bind_to_ports taken (Config.nodes (port_at 80 ∷ port_at 81 ∷ []))
            ≡ failure taken (last_refusal taken (port_at 80 ∷ port_at 81 ∷ []) none)))
try_bind_to_ports_lem_example = try_bind_to_ports_lem taken (port_at 80 ∷ port_at 81 ∷ [])
