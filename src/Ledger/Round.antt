-- ===== src/Ledger/Round.antt =====
-- src/modules/validation.rs, `handle_transaction_request` as a whole: a transaction, from the node's own
-- verdict over a full round of votes to the ledger.
use mini_block_chain.Prelude.{
  ℕ, ◌+◌, ◌*◌, ◌<◌, ◌≡◌, Bool, true, false, none, List, [], ◌∷◌, map, arith, ltb, if◌then◌else◌,
  length, u32_mod,
}
use mini_block_chain.Bytes.{Bytes, bytes_discrete}
use mini_block_chain.HashMap.{get}
use mini_block_chain.External.{Json, Crypto}
use mini_block_chain.Node.{ValidatorNode, done, pure, ◌>>◌, update_active_peer_count}
use mini_block_chain.Node.Request.{hash_network_request}
use mini_block_chain.Consensus.{
  record_vote, wait_loop, await_all_block_decisions, majority_of, determine_majority,
}
use mini_block_chain.Consensus.Votes.{vote_arrives, ayes}
use mini_block_chain.Ledger.{undisturbed, consult}
use mini_block_chain.Ledger.Transfer.{
  verify_transaction_independently, add_transaction_to_ledger, handle_transaction_request,
}
use mini_block_chain.Ledger.Verdict.{is_acceptable, verify_transaction_independently_lem}
use mini_block_chain.Ledger.Agreement.{consult_lem}

-- The chain, the accounts and the unspent outputs are the same.
abbrev pub IsSameState : ValidatorNode → ValidatorNode → Type 0
IsSameState n n' =
    (n'.blockchain ≡ n.blockchain) × (n'.merkle_tree ≡ n.merkle_tree) × (n'.utxo_set ≡ n.utxo_set)

record_vote-IsSameState :
    (h : Bytes) (d : Bool) (n : ValidatorNode) → IsSameState n (record_vote h d n).1
unfolding record_vote
record_vote-IsSameState h true n = ground arith
record_vote-IsSameState h false n = ground arith

wait_loop-IsSameState :
    (h : Bytes) (ds : List Bool) (n : ValidatorNode)
    → IsSameState n (wait_loop h (map (vote_arrives h) ds) n).1
unfolding wait_loop
wait_loop-IsSameState h [] n = ground arith
wait_loop-IsSameState h (d ∷ ds) n =
    ground (arith, record_vote-IsSameState h d n, wait_loop-IsSameState h ds (vote_arrives h d n))

await-IsSameState :
    (h : Bytes) (ds : List Bool) (n : ValidatorNode)
    → IsSameState n (await_all_block_decisions h (map (vote_arrives h) ds) n).1
unfolding await_all_block_decisions
await-IsSameState h ds n = ground (arith, wait_loop-IsSameState h ds n)

module _ {Value : Type 0} (x : Json Value) (c : Crypto) where
  consult-IsSameState :
      (r : Value) (ds : List Bool) (n : ValidatorNode)
      → IsSameState n
          (consult x c r
            (undisturbed (map (vote_arrives (hash_network_request x c.sha256 r)) ds))
            n).1
  unfolding consult determine_majority majority_of update_active_peer_count
  consult-IsSameState r ds n =
      ground (
        arith,
        await-IsSameState (hash_network_request x c.sha256 r) ds (update_active_peer_count n),
      )

  -- A transaction on which no peer has voted yet, with one vote from each active peer and fewer
  -- than 2 ^ 32 - 1 peers: the handler ends the round with chain, accounts and unspent outputs as
  -- they were; then it rejects the transaction unless more than half of all votes, its own verdict
  -- among them, are in favour, and else writes it to the ledger.
  pub handle_transaction_request_lem :
      (r : Value) (ds : List Bool) (time : ℕ) (n : ValidatorNode)
      → get bytes_discrete (hash_network_request x c.sha256 r) n.peer_decisions ≡ none
      → length ds ≡ length n.active_peers
      → length n.active_peers + 1 < u32_mod
      → let votes : List Bool = is_acceptable x c r n ∷ ds in
        (n' : ValidatorNode) × IsSameState n n'
        × (handle_transaction_request x c r
              (undisturbed (map (vote_arrives (hash_network_request x c.sha256 r)) ds))
              time
              n
            ≡ (if ltb (length votes) (2 * ayes votes)
                then (add_transaction_to_ledger x c r time >> pure true) n'
                else (done false, n')))
  unfolding handle_transaction_request
  handle_transaction_request_lem r ds time n fresh l b =
      let (ended, recorded, kept) = verify_transaction_independently_lem x c r n in
      let asked : ValidatorNode = (verify_transaction_independently x c r n).1 in
      let agreed =
        consult_lem x c r (is_acceptable x c r n) ds asked recorded (ground (arith, kept, fresh))
          (ground (arith, kept, l)) (ground (arith, kept, b)) in
      (
        (consult x c r (undisturbed (map (vote_arrives (hash_network_request x c.sha256 r)) ds))
            asked).1,
        ground (arith, kept, consult-IsSameState r ds asked),
        ground (arith, ended, agreed),
      )
