-- ===== src/Adopt/Majority.antt =====
-- src/modules/adopt_network_state.rs, `adopt_majority`: what a newcomer takes over and what it
-- keeps.
use mini_block_chain.Prelude.{
  ℕ, suc, ◌≡◌, refl, sym, ◌∙◌, ◌⊎◌, inl, inr, some, List, [], ◌∷◌, arith, Option-cases,
}
use mini_block_chain.Bytes.{Bytes, Text, bytes_discrete}
use mini_block_chain.HashMap.{HashMap}
use mini_block_chain.Node.{PeerLedgerResponse, ValidatorNode}
use mini_block_chain.Adopt.{
  Call, count_hashes, find_state, max_entry, majority_state, adopt_majority,
}

-- The state is one of the list.
abbrev pub IsAmong : PeerLedgerResponse → List PeerLedgerResponse → Type 0
IsAmong p [] = ⊥
IsAmong p (s ∷ ss) = (s ≡ p) ⊎ IsAmong p ss

IsAmong-eq :
    {p q : PeerLedgerResponse} (ss : List PeerLedgerResponse) → q ≡ p → IsAmong p ss → IsAmong q ss
IsAmong-eq [] e h = h
IsAmong-eq (s ∷ ss) e (inl k) = inl (k ∙ sym e)
IsAmong-eq (s ∷ ss) e (inr k) = inr (IsAmong-eq ss e k)

module _ (sha256 : Bytes → Bytes) (serialize : Call → PeerLedgerResponse → Text) where
  found :
      (i : ℕ) (h : Bytes) (ss : List PeerLedgerResponse) {p : PeerLedgerResponse}
      → find_state sha256 serialize i h ss ≡ some p
      → IsAmong p ss
  unfolding find_state
  found i h [] e = cc
  found i h (s ∷ ss) {p} e = elim (bytes_discrete (sha256 (serialize (Call.finding i) s)) h) [
    | yes q ↦ inl (ground (arith, e, q))
    | no n ↦ inr (found (suc i) h ss (ground (arith, e, n)))
  ]

module _ (sha256 : Bytes → Bytes) (serialize : Call → PeerLedgerResponse → Text)
    (iterate : HashMap Bytes ℕ → HashMap Bytes ℕ) where
  among :
      (s : PeerLedgerResponse) (ss : List PeerLedgerResponse)
      → IsAmong (majority_state sha256 serialize iterate s ss) (s ∷ ss)
  unfolding majority_state
  among s ss =
      elim (Option-cases (max_entry (iterate (count_hashes sha256 serialize 0 (s ∷ ss) [])))) [
        | inl e ↦ inl (rw (e, majority_state) refl)
        | inr (best, e) ↦ elim (Option-cases (find_state sha256 serialize 0 best.0 (s ∷ ss))) [
          | inl q ↦ inl (rw (e, majority_state, q) refl)
          | inr (p, q) ↦
              let chosen : majority_state sha256 serialize iterate s ss ≡ p =
                ground (arith, e, q) in
              IsAmong-eq (s ∷ ss) chosen (found sha256 serialize 0 best.0 (s ∷ ss) q)
        ]
      ]

  -- Whatever text each call gives a state, and in whatever order the counts are iterated: a node
  -- that got a state takes over the chain, the accounts and the used signatures of one that it
  -- got, and keeps its unspent outputs, the root, the stored requests and its decisions.
  pub adopt_majority_lem :
      (n : ValidatorNode) (s : PeerLedgerResponse) (ss : List PeerLedgerResponse)
      → n.peer_ledger_states ≡ s ∷ ss
      → let n' = adopt_majority sha256 serialize iterate n in
        ((p : PeerLedgerResponse) × IsAmong p n.peer_ledger_states
          × (n'.blockchain.chain ≡ p.blockchain)
          × (n'.merkle_tree.accounts_vec ≡ p.accounts_vec)
          × (n'.merkle_tree.accounts_map ≡ p.accounts_map)
          × (n'.used_zk_proofs ≡ p.used_zk_proofs))
        × (n'.utxo_set ≡ n.utxo_set)
        × (n'.merkle_tree.root ≡ n.merkle_tree.root)
        × (n'.blockchain.joint_request_map ≡ n.blockchain.joint_request_map)
        × (n'.client_decisions ≡ n.client_decisions)
  unfolding adopt_majority
  adopt_majority_lem n s ss e = rw e (
    (majority_state sha256 serialize iterate s ss, among s ss, refl, refl, refl, refl),
    refl,
    refl,
    refl,
    refl,
  )
