-- ===== src/Locks/Order.antt =====
-- The locks of src/modules/validation.rs: tasks that take them in the order of a rank.
use mini_block_chain.Prelude.{
  ℕ, suc, ◌+◌, ◌<◌, ◌≡◌, refl, ap, inl, inr, Bool, true, false, ◌&&◌, List, [], ◌∷◌, ◌++◌, arith,
  ltb, Bool-cases, All,
}
use mini_block_chain.Locks.{Lock, Move, Locker, holds, someone_holds, released, Go}

abbrev pub is_empty : List Lock → Bool
is_empty [] = true
is_empty (l ∷ ls) = false

module _ (rank : Lock → ℕ) where
  unfoldable pub below : Lock → List Lock → Bool
  below m [] = true
  below m (l ∷ ls) = ltb (rank l) (rank m) && below m ls

  -- Each lock is taken only while all locks held have a lower rank, and all are given back.
  unfoldable pub ordered : List Lock → List Move → Bool
  unfolding below
  ordered held [] = is_empty held
  ordered held (Move.take m ∷ rest) = below m held && ordered (m ∷ held) rest
  ordered held (Move.free m ∷ rest) = ordered (released m held) rest
  ordered held (Move.work ∷ rest) = ordered held rest

  abbrev pub IsOrdered : Locker → Type 0
  IsOrdered t = ordered t.held t.rest ≡ true

  pub below-lt :
      (m l : Lock) (ls : List Lock) → below m ls ≡ true → holds l ls ≡ true → rank l < rank m
  unfolding below holds
  below-lt m l [] b h = cc
  below-lt m l (x ∷ ls) b h = ground (arith, b, h, below-lt m l ls)

  -- More than the rank of any lock.
  pub bound : ℕ
  bound = suc (
      rank Lock.blockchain
      + rank Lock.merkle_tree
      + rank Lock.utxo_set
      + rank Lock.peer_decisions
      + rank Lock.client_decisions
      + rank Lock.used_zk_proofs
      + rank Lock.active_peers
      + rank Lock.total_peers
      + rank Lock.peer_ledger_states)

  pub below_bound : (m : Lock) → rank m < bound
  unfolding bound
  below_bound Lock.blockchain = omega arith
  below_bound Lock.merkle_tree = omega arith
  below_bound Lock.utxo_set = omega arith
  below_bound Lock.peer_decisions = omega arith
  below_bound Lock.client_decisions = omega arith
  below_bound Lock.used_zk_proofs = omega arith
  below_bound Lock.active_peers = omega arith
  below_bound Lock.total_peers = omega arith
  below_bound Lock.peer_ledger_states = omega arith

-- A lock held by someone is held by one of them.
pub holder :
    (m : Lock) (ts : List Locker)
    → someone_holds m ts ≡ true
    → (before : List Locker) × (t : Locker) × (behind : List Locker) × (ts ≡ before ++ t ∷ behind)
      × (holds m t.held ≡ true)
unfolding someone_holds
holder m [] h = cc
holder m (t ∷ ts) h = elim (Bool-cases (holds m t.held)) [
  | inl e ↦ ([], t, ts, refl, e)
  | inr e ↦
      let (before, t', behind, split, found) = holder m ts (ground (arith, h, e)) in
      (t ∷ before, t', behind, ap (λ (us : List Locker). t ∷ us) split, found)
]

pub someone_of_others :
    (m : Lock) (before behind : List Locker) (t : Locker)
    → someone_holds m (before ++ behind) ≡ true
    → someone_holds m (before ++ t ∷ behind) ≡ true
unfolding someone_holds
someone_of_others m [] behind t h = ground (arith, h)
someone_of_others m (x ∷ before) behind t h = ground (arith, h, someone_of_others m before behind t)

module _ (P : Locker → Type 0) where
  pub All-split :
      (before : List Locker) (t : Locker) (behind : List Locker)
      → All P (before ++ t ∷ behind)
      → All P before × P t × All P behind
  All-split [] t behind h = (tt, h.0, h.1)
  All-split (x ∷ before) t behind h =
      let (a, b, d) = All-split before t behind h.1 in ((h.0, a), b, d)

  pub All-join :
      (before : List Locker) (t : Locker) (behind : List Locker)
      → All P before
      → P t
      → All P behind
      → All P (before ++ t ∷ behind)
  All-join [] t behind a b d = (b, d)
  All-join (x ∷ before) t behind a b d = (a.0, All-join before t behind a.1 b d)

-- Some task can go on.
abbrev pub CanGo : List Locker → Type 0
CanGo ts = (us : List Locker) × Go ts us

abbrev pub locker : List Lock → List Move → Locker
locker held rest = record { held = held; rest = rest }
