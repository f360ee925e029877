-- ===== src/Consensus/Waiting.antt =====
-- src/modules/validation.rs, `await_all_block_decisions`: the wait on votes that are on record
-- already, as those of an earlier round are, since nothing clears them, and on those that arrive.
use mini_block_chain.Prelude.{
  ℕ, ◌+◌, ◌≤◌, ◌<◌, ◌≡◌, ◌≢◌, refl, sym, inl, inr, ite, Bool, true, false, ◌&&◌, List, [], ◌∷◌, map,
  arith, leb, ◌==◌, if◌then◌else◌, Bool-cases, ℕ_discrete, u32_mod,
}
use mini_block_chain.Bytes.{Bytes, bytes_discrete}
use mini_block_chain.HashMap.Laws.{get-insert}
use mini_block_chain.Node.{ValidatorNode, Outcome, done, waiting, Env}
use mini_block_chain.Consensus.{
  ℕ_discrete, sym, waiting, Outcome, ite, votes_of, record_vote, check_all_block_decisions_received,
  wait_loop, await_all_block_decisions,
}
use mini_block_chain.Consensus.Votes.{vote_arrives, loop_done}

abbrev pub votes_on_record : Bytes → ValidatorNode → ℕ
votes_on_record h n = (votes_of h n).0 + (votes_of h n).1

abbrev pub arrivals : List (Bytes × Bool) → List Env
arrivals = map (λ a. vote_arrives a.0 a.1)

-- How many of the answers are about this request.
abbrev pub about : Bytes → List (Bytes × Bool) → ℕ
about h [] = 0
about h ((h', d) ∷ answers) = ite (bytes_discrete h' h) 1 0 + about h answers

-- A vote adds one to those on record for its request, and the number of peers stays.
vote_arrives_lem :
    (h h' : Bytes) (d : Bool) (n : ValidatorNode)
    → votes_on_record h n + ite (bytes_discrete h' h) 1 0 < u32_mod
    → (votes_on_record h (vote_arrives h' d n)
        ≡ votes_on_record h n + ite (bytes_discrete h' h) 1 0)
      × ((vote_arrives h' d n).total_peers ≡ n.total_peers)
unfolding record_vote
vote_arrives_lem h h' true n b = ground (
  arith,
  b,
  get-insert bytes_discrete h' h ((votes_of h' n).0 + 1, (votes_of h' n).1) n.peer_decisions,
)
vote_arrives_lem h h' false n b = ground (
  arith,
  b,
  get-insert bytes_discrete h' h ((votes_of h' n).0, (votes_of h' n).1 + 1) n.peer_decisions,
)

-- Whether a number of peers is met on the way from one number of votes to another.
abbrev pub meets : ℕ → ℕ → ℕ → Outcome (Unit {0})
meets peers from to = if leb from peers && leb peers to then done tt else waiting

-- While the votes are not as many as the peers, the loop goes on.
loop_waits :
    (h : Bytes) (n : ValidatorNode)
    → votes_on_record h n ≢ n.total_peers
    → votes_on_record h n < u32_mod
    → n.total_peers < u32_mod
    → (wait_loop h [] n ≡ (waiting, n))
      × ((e : Env) (es : List Env) → wait_loop h (e ∷ es) n ≡ wait_loop h es (e n))
unfolding wait_loop check_all_block_decisions_received
loop_waits h n d b c = (ground (arith, d, b, c), (λ e es. ground (arith, d, b, c)))

met : (a b r : ℕ) → a ≡ b → meets b a (a + r) ≡ done tt
met a b r e = ground (arith, e)

no_more : (a b : ℕ) → a ≢ b → meets b a (a + 0) ≡ waiting
no_more a b d = ground (arith, d)

one_more :
    (k k' rest peers i : ℕ)
    → k ≢ peers
    → i ≤ 1
    → k' ≡ k + i
    → meets peers k' (k' + rest) ≡ meets peers k (k + (i + rest))
one_more k k' rest peers i d l e = ground (arith, d, l, e)

loop_lem :
    (h : Bytes) (answers : List (Bytes × Bool)) (n : ValidatorNode)
    → 0 < n.total_peers
    → n.total_peers < u32_mod
    → votes_on_record h n + about h answers < u32_mod
    → (wait_loop h (arrivals answers) n).0
      ≡ meets n.total_peers (votes_on_record h n) (votes_on_record h n + about h answers)
loop_lem h [] n p b c = elim (ℕ_discrete (votes_on_record h n) n.total_peers) [
  | yes e ↦ rw (loop_done h [] n e p b) (sym (met _ _ 0 e))
  | no d ↦ rw (loop_waits h n d (omega (arith, c)) b).0 (sym (no_more _ _ d))
]
loop_lem h ((h', v) ∷ answers) n p b c = elim (ℕ_discrete (votes_on_record h n) n.total_peers) [
  | yes e ↦ rw (loop_done h (arrivals ((h', v) ∷ answers)) n e p b) (sym (met _ _ _ e))
  | no d ↦
      let now : ValidatorNode = vote_arrives h' v n in
      let one : ℕ = ite (bytes_discrete h' h) 1 0 in
      let (grown, peers) = vote_arrives_lem h h' v n (omega (arith, c)) in
      rw
        (
          (loop_waits h n d (omega (arith, c)) b).1 (vote_arrives h' v) (arrivals answers),
          loop_lem h answers now (omega (arith, p, peers)) (omega (arith, b, peers))
              (omega (arith, grown, c)),
          peers,
        )
        (one_more (votes_on_record h n) (votes_on_record h now) (about h answers) n.total_peers one
          d (ground arith) grown)
]

pub await_all_block_decisions_lem :
    (h : Bytes) (answers : List (Bytes × Bool)) (n : ValidatorNode)
    → n.total_peers < u32_mod
    → votes_on_record h n + about h answers < u32_mod
    → (await_all_block_decisions h (arrivals answers) n).0 ≡ (
        if n.total_peers == 0
        then done tt
        else meets n.total_peers (votes_on_record h n) (votes_on_record h n + about h answers))
unfolding await_all_block_decisions
await_all_block_decisions_lem h answers n b c = elim (Bool-cases (n.total_peers == 0)) [
  | inl e ↦ rw (e, await_all_block_decisions) refl
  | inr e ↦ rw (e, await_all_block_decisions) (loop_lem h answers n (ground (arith, e)) b c)
]
