-- ===== src/Client/Reading.antt =====
-- src/modules/requests.rs and src/modules/network.rs: how a node reads a request that was sent.
use mini_block_chain.Prelude.{
  ℕ, ◌<◌, ◌≡◌, refl, Option, some, List, [], ◌∷◌, map, arith, ℕ_discrete, All,
}
use mini_block_chain.Bytes.{Bytes, Text, bytes_discrete}
use mini_block_chain.External.{Json, Key, Crypto}
use mini_block_chain.Utxo.{TxInput, TxOutput, new_transaction}
use mini_block_chain.Consensus.{bytes_of, request_hash_field}
use mini_block_chain.Ledger.Spend.{parse_all, parse_transaction}
use mini_block_chain.Dispatch.{first_match, classify}
use mini_block_chain.Client.{NetworkRequest, message_of, variant_name, Carries}

-- The hash that a request names, if it names one.
abbrev pub named_hash : NetworkRequest → Bytes
named_hash (NetworkRequest.consensus_request hash port) = hash
named_hash _ = []

parse_all-some :
    {V A : Type 0} (parse : V → Option A) (vs : List V) (items : List A)
    → map parse vs ≡ map (λ i. some i) items
    → parse_all parse vs ≡ some items
unfolding parse_all
parse_all-some parse [] [] e = refl
parse_all-some parse [] (i ∷ is) e = cc
parse_all-some parse (v ∷ vs) [] e = cc
parse_all-some parse (v ∷ vs) (i ∷ is) e = ground (arith, e, parse_all-some parse vs is)

module _ {Value : Type 0} (x : Json Value) (c : Crypto) where
  pub bytes_of-some :
      (vs : List Value) (bs : Bytes)
      → All (λ b. b < 256) bs
      → map x.as_u64 vs ≡ map (λ b. some b) bs
      → bytes_of x c.sha256 vs ≡ some bs
  unfolding bytes_of
  bytes_of-some [] [] h e = refl
  bytes_of-some [] (b ∷ bs) h e = cc
  bytes_of-some (v ∷ vs) [] h e = cc
  bytes_of-some (v ∷ vs) (b ∷ bs) h e = ground (arith, e, h.0, bytes_of-some vs bs h.1)

  -- A request that is sent and parsed goes to the handler for its variant.
  pub Carries-classify :
      (v : Value) (r : NetworkRequest)
      → Carries x v r
      → classify (x.as_str (x.index v Key.action)) ≡ message_of r
  unfolding classify first_match bytes_discrete ℕ_discrete
  Carries-classify v r h = rw (h.0, classify) (named r)
    where
      named : (q : NetworkRequest) → classify (some (variant_name q)) ≡ message_of q
      named (NetworkRequest.account_creation key hash) = refl
      named (NetworkRequest.transaction sender signature recipient amount nonce) = refl
      named (NetworkRequest.utxo_transaction is os timestamp) = refl
      named (NetworkRequest.faucet key) = refl
      named (NetworkRequest.consensus_request hash port) = refl
      named (NetworkRequest.heart_beat port) = refl
      named (NetworkRequest.peer_ledger_request port) = refl

  pub utxo_read_back :
      (v : Value) (is : List TxInput) (os : List TxOutput) (timestamp : ℕ)
      → Carries x v (NetworkRequest.utxo_transaction is os timestamp)
      → parse_transaction x c v ≡ some (new_transaction c.sha256 is os timestamp)
  unfolding parse_transaction
  utxo_read_back v is os timestamp (_, ((vs, e, f), ((ws, g, i), (j, _)))) =
      ground (
        arith,
        e,
        g,
        j,
        parse_all-some x.to_tx_input vs is f,
        parse_all-some x.to_tx_output ws os i,
      )

  pub consensus_read_back :
      (v : Value) (hash : Bytes) (port : Text)
      → All (λ b. b < 256) hash
      → Carries x v (NetworkRequest.consensus_request hash port)
      → request_hash_field x c.sha256 v ≡ some hash
  unfolding request_hash_field
  consensus_read_back v hash port b (_, ((vs, e, f), _)) =
      ground (arith, e, bytes_of-some vs hash b f)
