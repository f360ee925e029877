-- ===== src/Locks.antt =====
-- The locks of a node: each field of `ValidatorNode` in src/modules/validation.rs is behind its own
-- mutex, and the tasks that src/modules/network.rs spawns take them in the order of their code. The
-- mutexes are not reentrant. A guard is given back where it is dropped, at the end of its scope in
-- the reverse order, and a task that panics gives back all its guards.
pub mod Routines
pub mod Order
pub mod Progress
pub mod Tasks
pub mod Deadlock
mod Tests
use mini_block_chain.Prelude.{
  ℕ, zero, suc, ◌+◌, ◌-◌, ◌*◌, ◌/◌, ◌%◌, ◌^◌, ◌≤◌, ◌<◌, ◌≡◌, refl, sym, ap, ◌∙◌, ◌≢◌, ◌↔◌, ◌⊎◌, inl,
  inr, ite, if_pos, if_neg, Bool, true, false, ◌&&◌, ◌||◌, not, Option, none, some, List, [], ◌∷◌,
  ◌++◌, map, arith, dec_lt, dec_le, ℕ_discrete, ltb, leb, ◌==◌, if◌then◌else◌, Bool-cases,
  Option-cases, length, length-append, length-map, sum, sum-append, All, All-map, count, retain_ne,
  count-append, count-retain_ne, sum_of_count-eq, u64_mod, u32_mod, checked_add, checked_sub,
  sum_u64, in_u64, sum_u64_lem,
}

pub data Lock : Type 0 where
  blockchain merkle_tree utxo_set peer_decisions client_decisions used_zk_proofs active_peers
        total_peers peer_ledger_states :
      Lock

unfoldable pub lock_discrete : Discrete Lock
lock_discrete = hlevel

-- What a task does, as far as locks go. Where it works it may panic.
pub data Move : Type 0 where
  take free : Lock → Move
  work : Move

-- A task: the locks it holds, and what it has yet to do.
pub record Locker : Type 0 where
  pub held : List Lock
  pub rest : List Move

abbrev pub finished : Locker
finished = record { held = []; rest = [] }

unfoldable pub holds : Lock → List Lock → Bool
holds m [] = false
holds m (l ∷ ls) = ite (lock_discrete l m) true (holds m ls)

unfoldable pub someone_holds : Lock → List Locker → Bool
someone_holds m [] = false
someone_holds m (t ∷ ts) = holds m t.held || someone_holds m ts

unfoldable pub released : Lock → List Lock → List Lock
released m [] = []
released m (l ∷ ls) = ite (lock_discrete l m) ls (l ∷ released m ls)

-- A task after its next move, unless it is through or waits for a lock that is held.
unfoldable pub next_of : List Locker → List Lock → List Move → Option Locker
next_of others held [] = none
next_of others held (Move.take m ∷ rest) =
    if holds m held || someone_holds m others
    then none
    else some (record { held = m ∷ held; rest = rest })
next_of others held (Move.free m ∷ rest) = some (record { held = released m held; rest = rest })
next_of others held (Move.work ∷ rest) = some (record { held = held; rest = rest })

-- One of the tasks goes on by a move, or panics.
pub data Go : List Locker → List Locker → Type 0 where
  goes :
      (before behind : List Locker) (t t' : Locker)
      → next_of (before ++ behind) t.held t.rest ≡ some t'
      → Go (before ++ t ∷ behind) (before ++ t' ∷ behind)
  panics :
      (before behind : List Locker) (held : List Lock) (rest : List Move)
      → Go
          (before ++ record { held = held; rest = Move.work ∷ rest } ∷ behind)
          (before ++ finished ∷ behind)

-- The tasks after a number of steps.
pub data Goes (ts : List Locker) : ℕ → List Locker → Type 0 where
  here : Goes ts 0 ts
  next : {k : ℕ} {us vs : List Locker} → Goes ts k us → Go us vs → Goes ts (suc k) vs
