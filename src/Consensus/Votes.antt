-- ===== src/Consensus/Votes.antt =====
-- src/modules/consensus.rs: a round of votes, from the first answer to the majority.
use mini_block_chain.Prelude.{
  ℕ, suc, ◌+◌, ◌*◌, ◌<◌, ◌≡◌, refl, ap, ◌∙◌, inl, inr, ite, if_pos, Bool, true, false, none, some,
  List, [], ◌∷◌, map, arith, ltb, ◌==◌, Bool-cases, length, u32_mod,
}
use mini_block_chain.Bytes.{Bytes, bytes_discrete}
use mini_block_chain.HashMap.{HashMap, get}
use mini_block_chain.HashMap.Laws.{get-insert}
use mini_block_chain.Node.{ValidatorNode, Outcome, done, Env}
use mini_block_chain.Consensus.{
  votes_of, record_vote, check_all_block_decisions_received, wait_loop, await_all_block_decisions,
  decide, majority_of,
}

-- The arrival of one vote, as a step of another task.
abbrev pub vote_arrives : Bytes → Bool → Env
vote_arrives h d n = (record_vote h d n).1

abbrev pub ayes : List Bool → ℕ
ayes [] = 0
ayes (true ∷ ds) = suc (ayes ds)
ayes (false ∷ ds) = ayes ds

abbrev bump : Bool → ℕ × ℕ → ℕ × ℕ
bump true v = (v.0 + 1, v.1)
bump false v = (v.0, v.1 + 1)

-- A vote is counted for its request alone, and changes nothing else of the node.
pub record_vote_lem :
    (h h' : Bytes) (d : Bool) (n : ValidatorNode)
    → (votes_of h n).0 + (votes_of h n).1 + 1 < u32_mod
    → ((record_vote h d n).0 ≡ done tt)
      × (votes_of h' (record_vote h d n).1
          ≡ ite (bytes_discrete h h') (bump d (votes_of h n)) (votes_of h' n))
      × ((record_vote h d n).1.total_peers ≡ n.total_peers)
      × ((record_vote h d n).1.client_decisions ≡ n.client_decisions)
unfolding record_vote
record_vote_lem h h' true n b = ground (
  arith,
  get-insert bytes_discrete h h' ((votes_of h n).0 + 1, (votes_of h n).1) n.peer_decisions,
)
record_vote_lem h h' false n b = ground (
  arith,
  get-insert bytes_discrete h h' ((votes_of h n).0, (votes_of h n).1 + 1) n.peer_decisions,
)

abbrev tally : List Bool → ℕ × ℕ → ℕ × ℕ
tally [] v = v
tally (d ∷ ds) v = tally ds (bump d v)

bump_sum : (d : Bool) (v : ℕ × ℕ) → (bump d v).0 + (bump d v).1 ≡ v.0 + v.1 + 1
bump_sum true v = omega arith
bump_sum false v = omega arith

tally_lem :
    (ds : List Bool) (v : ℕ × ℕ)
    → ((tally ds v).0 ≡ v.0 + ayes ds) × ((tally ds v).0 + (tally ds v).1 ≡ v.0 + v.1 + length ds)
tally_lem [] v = omega arith
tally_lem (true ∷ ds) v = omega (arith, tally_lem ds (v.0 + 1, v.1))
tally_lem (false ∷ ds) v = omega (arith, tally_lem ds (v.0, v.1 + 1))

-- A loop of which the votes are complete ends; one of which they are not goes on.
pub loop_done :
    (h : Bytes) (es : List Env) (n : ValidatorNode)
    → (votes_of h n).0 + (votes_of h n).1 ≡ n.total_peers
    → 0 < n.total_peers
    → n.total_peers < u32_mod
    → wait_loop h es n ≡ (done tt, n)
unfolding wait_loop check_all_block_decisions_received
loop_done h [] n e p b = ground (arith, e)
loop_done h (x ∷ es) n e p b = ground (arith, e)

loop_goes_on :
    (h : Bytes) (x : Env) (es : List Env) (n : ValidatorNode)
    → (votes_of h n).0 + (votes_of h n).1 < n.total_peers
    → n.total_peers < u32_mod
    → wait_loop h (x ∷ es) n ≡ wait_loop h es (x n)
unfolding wait_loop check_all_block_decisions_received
loop_goes_on h x es n e b = ground (arith, e)

-- The node at the end of a round of votes.
abbrev RoundEnds : Bytes → List Bool → ValidatorNode → Outcome (Unit {0}) × ValidatorNode → Type 0
RoundEnds h ds n (r, n') =
    (r ≡ done tt)
    × (votes_of h n' ≡ tally ds (votes_of h n))
    × (n'.client_decisions ≡ n.client_decisions)

round_ends :
    (h : Bytes) (ds : List Bool) (n : ValidatorNode)
    → (votes_of h n).0 + (votes_of h n).1 + length ds ≡ n.total_peers
    → 0 < n.total_peers
    → n.total_peers < u32_mod
    → RoundEnds h ds n (wait_loop h (map (vote_arrives h) ds) n)
round_ends h [] n e p b = rw (loop_done h [] n (omega arith) p b) (refl, refl, refl)
round_ends h (d ∷ ds) n e p b =
    let n' = vote_arrives h d n in
    let (_, votes, peers, own) = record_vote_lem h h d n (omega arith) in
    let voted : votes_of h n' ≡ bump d (votes_of h n) =
      votes ∙ if_pos (bytes_discrete h h) refl _ _ in
    let left : (votes_of h n').0 + (votes_of h n').1 + length ds ≡ n'.total_peers =
      rw voted (omega (arith, bump_sum d (votes_of h n), peers)) in
    let (ended, counted, kept) =
      round_ends h ds n' left (omega (arith, peers)) (omega (arith, peers)) in
    rw (loop_goes_on h (vote_arrives h d) (map (vote_arrives h) ds) n (omega arith) b)
      (ended, counted ∙ ap (tally ds) voted, kept ∙ own)

decide_lem :
    (own : Bool) (v : ℕ × ℕ)
    → v.0 + v.1 + 1 < u32_mod
    → decide own v ≡ some (ltb (v.0 + v.1 + 1) (2 * (v.0 + ayes (own ∷ []))))
unfolding decide
decide_lem true v b = ground arith
decide_lem false v b = ground arith

majority_of_lem :
    (h : Bytes) (own : Bool) (v : ℕ × ℕ) (n : ValidatorNode)
    → get bytes_discrete h n.client_decisions ≡ some own
    → votes_of h n ≡ v
    → v.0 + v.1 + 1 < u32_mod
    → majority_of h n ≡ (done (ltb (v.0 + v.1 + 1) (2 * (v.0 + ayes (own ∷ [])))), n)
unfolding majority_of
majority_of_lem h own v n mine votes b = ground (arith, mine, votes, decide_lem own v b)

same_test :
    (own : Bool) (ds : List Bool) (v : ℕ × ℕ)
    → v.0 ≡ 0 + ayes ds
    → v.0 + v.1 ≡ 0 + 0 + length ds
    → ltb (v.0 + v.1 + 1) (2 * (v.0 + ayes (own ∷ [])))
      ≡ ltb (length (own ∷ ds)) (2 * ayes (own ∷ ds))
same_test true ds v p q = ground arith
same_test false ds v p q = ground arith

await_ends :
    (h : Bytes) (ds : List Bool) (n : ValidatorNode)
    → (votes_of h n).0 + (votes_of h n).1 + length ds ≡ n.total_peers
    → n.total_peers < u32_mod
    → RoundEnds h ds n (await_all_block_decisions h (map (vote_arrives h) ds) n)
unfolding await_all_block_decisions
await_ends h [] n e b = elim (Bool-cases (n.total_peers == 0)) [
  | inl z ↦ rw (z, await_all_block_decisions) (refl, refl, refl)
  | inr z ↦ rw (z, await_all_block_decisions) (round_ends h [] n e (ground arith) b)
]
await_ends h (d ∷ ds) n e b =
    let z : (n.total_peers == 0) ≡ false = ground (arith, e) in
    rw (z, await_all_block_decisions) (round_ends h (d ∷ ds) n e (omega arith) b)

-- A node with a decision of its own on a request on which no peer has voted yet, and one vote from
-- each of its peers, fewer than 2 ^ 32 - 1: the wait ends, and the majority is whether the votes
-- in favour, the node's own among them, are more than half of all.
pub round_of_votes :
    (h : Bytes) (own : Bool) (ds : List Bool) (n : ValidatorNode)
    → get bytes_discrete h n.client_decisions ≡ some own
    → get bytes_discrete h n.peer_decisions ≡ none
    → length ds ≡ n.total_peers
    → n.total_peers + 1 < u32_mod
    → let (r, n') = await_all_block_decisions h (map (vote_arrives h) ds) n in
      (r ≡ done tt) × ((majority_of h n').0 ≡ done (ltb (length (own ∷ ds)) (2 * ayes (own ∷ ds))))
round_of_votes h own ds n mine fresh l b =
    let (ended, counted, kept) = await_ends h ds n (ground (arith, l, fresh)) (omega arith) in
    let (yes_votes, all_votes) = tally_lem ds (0, 0) in
    (
      ended,
      ap (λ (p : Outcome Bool × ValidatorNode). p.0)
            (majority_of_lem h own (tally ds (0, 0)) _
              (ap (λ (m : HashMap Bytes Bool). get bytes_discrete h m) kept ∙ mine)
              (counted ∙ ap (tally ds) (ground (arith, fresh))) (omega arith))
          ∙ ap (λ (b : Bool). done b) (same_test own ds (tally ds (0, 0)) yes_votes all_votes),
    )
