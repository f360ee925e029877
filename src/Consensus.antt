-- ===== src/Consensus.antt =====
-- src/modules/consensus.rs, and the waits of src/modules/validation.rs: votes on a request, the
-- wait for them, and the majority.
pub mod Votes
pub mod Waiting
mod Tests
use mini_block_chain.Prelude.{
  ℕ, zero, suc, ◌+◌, ◌-◌, ◌*◌, ◌/◌, ◌%◌, ◌^◌, ◌≤◌, ◌<◌, ◌≡◌, refl, sym, ap, ◌∙◌, ◌≢◌, ◌↔◌, ◌⊎◌, inl,
  inr, ite, if_pos, if_neg, Bool, true, false, ◌&&◌, ◌||◌, not, Option, none, some, List, [], ◌∷◌,
  ◌++◌, map, arith, dec_lt, dec_le, ℕ_discrete, ltb, leb, ◌==◌, if◌then◌else◌, Bool-cases,
  Option-cases, length, length-append, length-map, sum, sum-append, All, All-map, count, retain_ne,
  count-append, count-retain_ne, sum_of_count-eq, u64_mod, u32_mod, checked_add, checked_sub,
  sum_u64, in_u64, sum_u64_lem,
}
use mini_block_chain.Bytes.{Bytes, Text, bytes_discrete}
use mini_block_chain.HashMap.{HashMap, get, insert}
use mini_block_chain.External.{Json, Key}
use mini_block_chain.Node.{
  ValidatorNode, Outcome, done, panicked, waiting, Action, Env, pure, gets, unwrap, ◌>>=◌, ◌>>◌,
  update,
}
use mini_block_chain.Node.Request.{hash_network_request}

-- `a + b` on u32, where `none` is the panic.
abbrev pub add_u32 : ℕ → ℕ → Option ℕ
add_u32 a b = if ltb (a + b) u32_mod then some (a + b) else none

-- The votes of the peers for a request, none if there was no answer yet.
abbrev pub votes_of : Bytes → ValidatorNode → ℕ × ℕ
votes_of h n = elim (get bytes_discrete h n.peer_decisions) [ none ↦ (0, 0) | some v ↦ v ]

abbrev pub vote : Bool → ℕ × ℕ → Option (ℕ × ℕ)
vote true v = elim (add_u32 v.0 1) [ none ↦ none | some t ↦ some (t, v.1) ]
vote false v = elim (add_u32 v.1 1) [ none ↦ none | some f ↦ some (v.0, f) ]

-- The store of one peer's vote, in `handle_consensus_response`.
unfoldable pub record_vote : Bytes → Bool → Action (Unit {0})
record_vote h decision n = elim (vote decision (votes_of h n)) [
  | none ↦ (panicked, n)
  | some v ↦ (done tt, record n { peer_decisions = insert bytes_discrete h v n.peer_decisions })
]

-- `ValidatorNode::check_all_block_decisions_received`; `none` is the panic of the u32 addition.
unfoldable pub check_all_block_decisions_received : Bytes → ValidatorNode → Option Bool
check_all_block_decisions_received h n = elim (add_u32 (votes_of h n).0 (votes_of h n).1) [
  | none ↦ none
  | some total ↦ some (total == (n.total_peers % u32_mod))
]

-- After the loop the votes are read once more.
abbrev wait_over : Bytes → Action (Unit {0})
wait_over h n = elim (get bytes_discrete h n.peer_decisions) [
  | none ↦ (panicked, n)
  | some v ↦ (done tt, n)
]

-- The loop: it looks at its condition after each step of the other tasks.
unfoldable pub wait_loop : Bytes → List Env → Action (Unit {0})
wait_loop h [] n = elim (check_all_block_decisions_received h n) [
  | none ↦ (panicked, n)
  | some true ↦ wait_over h n
  | some false ↦ (waiting, n)
]
wait_loop h (e ∷ es) n = elim (check_all_block_decisions_received h n) [
  | none ↦ (panicked, n)
  | some true ↦ wait_over h n
  | some false ↦ wait_loop h es (e n)
]

-- `ValidatorNode::await_all_block_decisions`
unfoldable pub await_all_block_decisions : Bytes → List Env → Action (Unit {0})
await_all_block_decisions h es n = if n.total_peers == 0 then (done tt, n) else wait_loop h es n

-- The own vote and those of the peers, as `determine_majority` counts them.
unfoldable pub decide : Bool → ℕ × ℕ → Option Bool
decide own v = elim (add_u32 (if own then 1 else 0) v.0) [
  | none ↦ none
  | some t ↦ elim (add_u32 (if own then 0 else 1) v.1) [ none ↦ none | some f ↦ some (ltb f t) ]
]

-- `determine_majority` under the hash of the request: it panics if the node has no decision of its
-- own.
unfoldable pub majority_of : Bytes → Action Bool
majority_of h = do
  own ← unwrap' (λ n. get bytes_discrete h n.client_decisions)
  unwrap' (λ n. decide own (votes_of h n))
  where
    unwrap' : (ValidatorNode → Option Bool) → Action Bool
    unwrap' f n = unwrap (f n) n

-- The vote that a node sends back, and where to.
pub record Answer : Type 0 where
  pub request_hash : Bytes
  pub decision : Bool
  pub response_port : Text

module _ {Value : Type 0} (x : Json Value) (sha256 : Bytes → Bytes) where
  unfoldable pub determine_majority : Value → Action Bool
  determine_majority r = majority_of (hash_network_request x sha256 r)

  unfoldable pub bytes_of : List Value → Option Bytes
  bytes_of [] = some []
  bytes_of (v ∷ vs) = elim (x.as_u64 v) [
    | none ↦ none
    | some b ↦ elim (bytes_of vs) [ none ↦ none | some bs ↦ some ((b % 256) ∷ bs) ]
  ]

  -- `request["request_hash"].as_array().unwrap()` as bytes, each by `as_u64().unwrap() as u8`.
  unfoldable pub request_hash_field : Value → Option Bytes
  unfolding bytes_of
  request_hash_field r = elim (x.as_array (x.index r Key.request_hash)) [
    | none ↦ none
    | some vs ↦ bytes_of vs
  ]

  -- It panics on a request that the node has no decision about.
  unfoldable pub handle_consensus_request : Value → Action Answer
  handle_consensus_request r n = elim (request_hash_field r) [
    | none ↦ (panicked, n)
    | some h ↦ elim (get bytes_discrete h n.client_decisions) [
      | none ↦ (panicked, n)
      | some own ↦ elim (x.as_str (x.index r Key.response_port)) [
        | none ↦ (panicked, n)
        | some port ↦ (done (record { request_hash = h; decision = own; response_port = port }), n)
      ]
    ]
  ]

  unfoldable pub handle_consensus_response : Value → Action (Unit {0})
  handle_consensus_response r n = elim (request_hash_field r) [
    | none ↦ (panicked, n)
    | some h ↦ elim (x.as_bool (x.index r Key.decision)) [
      | none ↦ (panicked, n)
      | some decision ↦ record_vote h decision n
    ]
  ]
