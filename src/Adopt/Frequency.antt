-- ===== src/Adopt/Frequency.antt =====
-- src/modules/adopt_network_state.rs, `adopt_majority`: how often the state taken over occurs
-- among those received, by hash.
use mini_block_chain.Prelude.{
  ℕ, suc, ◌+◌, ◌≤◌, ◌≡◌, refl, sym, ap, ◌∙◌, ◌⊎◌, inl, inr, ite, none, some, List, [], ◌∷◌, arith,
  dec_lt, Option-cases,
}
use mini_block_chain.Bytes.{Bytes, Text, bytes_discrete}
use mini_block_chain.HashMap.{HashMap, get, upsert, IsUnique}
use mini_block_chain.HashMap.Laws.{get-insert, insert-IsUnique}
use mini_block_chain.HashMap.Sizes.{at}
use mini_block_chain.Node.{PeerLedgerResponse}
use mini_block_chain.Adopt.{Call, count_hashes, find_state, max_entry, majority_state}

-- The number under a hash, 0 if there is none.
abbrev count_at : Bytes → HashMap Bytes ℕ → ℕ
count_at h m = at (λ k. k) (get bytes_discrete h m)

-- An iteration over a map gives each of its entries once, in some order.
pub record IsIteration (iterate : HashMap Bytes ℕ → HashMap Bytes ℕ) : Type 0 where
  pub same :
      (m : HashMap Bytes ℕ) (h : Bytes)
      → IsUnique bytes_discrete m
      → get bytes_discrete h (iterate m) ≡ get bytes_discrete h m
  pub once : (m : HashMap Bytes ℕ) → IsUnique bytes_discrete m → IsUnique bytes_discrete (iterate m)

-- The entry found has the largest number, and it is in the map.
max_entry_lem :
    (m : HashMap Bytes ℕ)
    → IsUnique bytes_discrete m
    → ((m ≡ []) × (max_entry m ≡ none))
      ⊎ ((best : Bytes × ℕ) × (max_entry m ≡ some best)
          × (get bytes_discrete best.0 m ≡ some best.1)
          × ((h : Bytes) → count_at h m ≤ best.1))
unfolding max_entry get
max_entry_lem [] u = inl (refl, refl)
max_entry_lem ((h, k) ∷ m) u = elim (max_entry_lem m u.1) [
  | inl (e, none_left) ↦
      inr ((h, k), ground (arith, none_left), ground arith, (λ j. ground (arith, e)))
  | inr (best, e, there, largest) ↦ elim (dec_lt best.1 k) [
    | yes p ↦ inr ((h, k), ground (arith, e, p), ground arith, (λ j. ground (arith, p, largest j)))
    | no p ↦ inr (
      best,
      ground (arith, e, p),
      ground (arith, there, u.0),
      (λ j. ground (arith, p, largest j)),
    )
  ]
]

nothing_counted : (h : Bytes) {m : HashMap Bytes ℕ} → m ≡ [] → count_at h m ≡ 0
unfolding get
nothing_counted h e = ap (count_at h) e

upsert-IsUnique :
    (h : Bytes) (m : HashMap Bytes ℕ)
    → IsUnique bytes_discrete m
    → IsUnique bytes_discrete (upsert bytes_discrete h 0 (λ k. k + 1) m)
upsert-IsUnique h m u = elim (Option-cases (get bytes_discrete h m)) [
  | inl e ↦ rw (upsert, e) (insert-IsUnique bytes_discrete h 1 m u)
  | inr (v, e) ↦ rw (upsert, e) (insert-IsUnique bytes_discrete h (v + 1) m u)
]

count_at-upsert :
    (h j : Bytes) (m : HashMap Bytes ℕ)
    → count_at j (upsert bytes_discrete h 0 (λ k. k + 1) m)
      ≡ count_at j m + ite (bytes_discrete h j) 1 0
count_at-upsert h j m = elim (Option-cases (get bytes_discrete h m)) [
  | inl e ↦ ground (arith, e, get-insert bytes_discrete h j 1 m)
  | inr (v, e) ↦ ground (arith, e, get-insert bytes_discrete h j (v + 1) m)
]

module _ (sha256 : Bytes → Bytes) (text : PeerLedgerResponse → Text) where
  abbrev written : Call → PeerLedgerResponse → Text
  written call s = text s

  abbrev pub hash_of : PeerLedgerResponse → Bytes
  hash_of s = sha256 (text s)

  -- How many of the states have a hash.
  unfoldable pub occurrences : Bytes → List PeerLedgerResponse → ℕ
  occurrences h [] = 0
  occurrences h (s ∷ ss) = ite (bytes_discrete (hash_of s) h) 1 0 + occurrences h ss

  counted :
      (i : ℕ) (ss : List PeerLedgerResponse) (m : HashMap Bytes ℕ)
      → IsUnique bytes_discrete m
      → IsUnique bytes_discrete (count_hashes sha256 written i ss m)
        × ((h : Bytes)
            → count_at h (count_hashes sha256 written i ss m) ≡ count_at h m + occurrences h ss)
  unfolding count_hashes occurrences
  counted i [] m u = (u, (λ h. omega arith))
  counted i (s ∷ ss) m u =
      let (kept, more) =
        counted (suc i) ss (upsert bytes_discrete (hash_of s) 0 (λ k. k + 1) m)
          (upsert-IsUnique (hash_of s) m u) in
      (kept, (λ h. omega (arith, more h, count_at-upsert (hash_of s) h m)))

  all_counted :
      (ss : List PeerLedgerResponse) (h : Bytes)
      → count_at h (count_hashes sha256 written 0 ss []) ≡ occurrences h ss
  unfolding get
  all_counted ss h = omega (arith, (counted 0 ss [] tt).1 h)

  first_counted :
      (s : PeerLedgerResponse) (ss : List PeerLedgerResponse) → 1 ≤ occurrences (hash_of s) (s ∷ ss)
  unfolding occurrences
  first_counted s ss = ground arith

  found :
      (i : ℕ) (h : Bytes) (ss : List PeerLedgerResponse)
      → ((find_state sha256 written i h ss ≡ none) × (occurrences h ss ≡ 0))
        ⊎ ((p : PeerLedgerResponse) × (find_state sha256 written i h ss ≡ some p) × (hash_of p ≡ h))
  unfolding find_state occurrences
  found i h [] = inl (refl, refl)
  found i h (s ∷ ss) = elim (bytes_discrete (hash_of s) h) [
    | yes q ↦ inr (s, ground (arith, q), q)
    | no n ↦ elim (found (suc i) h ss) [
      | inl (e, z) ↦ inl (ground (arith, n, e), ground (arith, n, z))
      | inr (p, e, q) ↦ inr (p, ground (arith, n, e), q)
    ]
  ]

  chosen :
      (iterate : HashMap Bytes ℕ → HashMap Bytes ℕ) (s : PeerLedgerResponse)
      (ss : List PeerLedgerResponse) (best : Bytes × ℕ) (p : PeerLedgerResponse)
      → max_entry (iterate (count_hashes sha256 written 0 (s ∷ ss) [])) ≡ some best
      → find_state sha256 written 0 best.0 (s ∷ ss) ≡ some p
      → majority_state sha256 written iterate s ss ≡ p
  unfolding majority_state
  chosen iterate s ss best p e q = ground (arith, e, q)

  -- If the text of a state does not depend on the call that writes it, and the iteration gives
  -- each count once, then no hash occurs more often among the states than that of the state
  -- taken over.
  pub majority_state_lem :
      (iterate : HashMap Bytes ℕ → HashMap Bytes ℕ) (s : PeerLedgerResponse)
      (ss : List PeerLedgerResponse) (h : Bytes)
      → IsIteration iterate
      → occurrences h (s ∷ ss)
        ≤ occurrences (hash_of (majority_state sha256 written iterate s ss)) (s ∷ ss)
  majority_state_lem iterate s ss h it = elim (max_entry_lem (iterate m) (it.once m unique)) [
    | inl (e, _) ↦ absurd (omega (arith, first_counted s ss, empty_counts e))
    | inr (best, e, there, largest) ↦ elim (found 0 best.0 (s ∷ ss)) [
      | inl (_, z) ↦
          absurd (omega (arith, first_counted s ss, z, largest_of best there largest (hash_of s)))
      | inr (p, q, same) ↦
          rw (chosen iterate s ss best p e q, same) (largest_of best there largest h)
    ]
  ]
    where
      m : HashMap Bytes ℕ
      m = count_hashes sha256 written 0 (s ∷ ss) []

      unique : IsUnique bytes_discrete m
      unique = (counted 0 (s ∷ ss) [] tt).0

      counts : (j : Bytes) → count_at j (iterate m) ≡ occurrences j (s ∷ ss)
      counts j = ap (at (λ (k : ℕ). k)) (it.same m j unique) ∙ all_counted (s ∷ ss) j

      empty_counts : iterate m ≡ [] → occurrences (hash_of s) (s ∷ ss) ≡ 0
      empty_counts e = sym (counts (hash_of s)) ∙ nothing_counted (hash_of s) e

      largest_of :
          (best : Bytes × ℕ)
          → get bytes_discrete best.0 (iterate m) ≡ some best.1
          → ((j : Bytes) → count_at j (iterate m) ≤ best.1)
          → (j : Bytes) → occurrences j (s ∷ ss) ≤ occurrences best.0 (s ∷ ss)
      largest_of best there largest j =
          omega (arith, counts j, counts best.0, largest j, ap (at (λ (k : ℕ). k)) there)
