-- ===== src/Locks/Tasks.antt =====
-- src/modules/validation.rs and src/modules/adopt_network_state.rs: the tasks of a node as sequences
-- of the functions that take its locks.
use mini_block_chain.Prelude.{
  ℕ, zero, suc, ◌+◌, ◌≤◌, ◌≡◌, refl, ◌⊎◌, Bool, true, false, List, [], ◌∷◌, ◌++◌, map, arith,
  dec_lt, All,
}
use mini_block_chain.Locks.{Lock, lock_discrete, Move, free, Locker, finished, released, Goes}
use mini_block_chain.Locks.Routines
use mini_block_chain.Locks.Routines.{
  under, decisions_check, decisions_checks, ledgers_checks, signature_verification,
  signature_verifications,
}
use mini_block_chain.Locks.Order.{ordered, IsOrdered, below, CanGo}
use mini_block_chain.Locks.Progress.{moves_left, through_or_goes, Goes-keeps}

-- The functions that take locks, with what chooses the path.
pub data Routine : Type 0 where
  peer_count majority account_verification account_write consensus_request consensus_response
        heartbeat chain_output ledger_request ledger_response adoption :
      Routine
  decisions_wait : (looks : ℕ) → Routine
  ledgers_wait : (looks : ℕ) → Routine
  transaction_verification : (signed : Bool) → Routine
  utxo_verification : (inputs : ℕ) (valid : Bool) → Routine
  utxo_write : (applies : Bool) → Routine

abbrev pub moves_of : Routine → List Move
moves_of Routine.peer_count = Routines.peer_count
moves_of Routine.majority = Routines.majority
moves_of Routine.account_verification = Routines.account_verification
moves_of Routine.account_write = Routines.account_write
moves_of Routine.consensus_request = Routines.consensus_request
moves_of Routine.consensus_response = Routines.consensus_response
moves_of Routine.heartbeat = Routines.heartbeat
moves_of Routine.chain_output = Routines.chain_output
moves_of Routine.ledger_request = Routines.ledger_request
moves_of Routine.ledger_response = Routines.ledger_response
moves_of Routine.adoption = Routines.adoption
moves_of (Routine.decisions_wait looks) = Routines.decisions_wait looks
moves_of (Routine.ledgers_wait looks) = Routines.ledgers_wait looks
moves_of (Routine.transaction_verification signed) = Routines.transaction_verification signed
moves_of (Routine.utxo_verification inputs valid) = Routines.utxo_verification inputs valid
moves_of (Routine.utxo_write applies) = Routines.utxo_write applies

-- A task that calls functions one after another, before it starts.
abbrev moves_of_all : List Routine → List Move
moves_of_all [] = []
moves_of_all (r ∷ rs) = moves_of r ++ moves_of_all rs

abbrev pub task : List Routine → Locker
task rs = record { held = []; rest = moves_of_all rs }

-- The functions that take no lock against the order of the others.
abbrev pub keeps_order : Routine → Bool
keeps_order (Routine.transaction_verification _) = false
keeps_order Routine.ledger_request = false
keeps_order Routine.adoption = false
keeps_order _ = true

-- An order of the locks that those functions keep to.
abbrev rank : Lock → ℕ
rank Lock.active_peers = 0
rank Lock.utxo_set = 1
rank Lock.merkle_tree = 2
rank Lock.blockchain = 3
rank Lock.client_decisions = 4
rank Lock.used_zk_proofs = 5
rank Lock.peer_decisions = 6
rank Lock.total_peers = 7
rank Lock.peer_ledger_states = 8

ordered-append :
    (held : List Lock) (s t : List Move)
    → ordered rank held s ≡ true
    → ordered rank [] t ≡ true
    → ordered rank held (s ++ t) ≡ true
unfolding ordered
ordered-append [] [] t h k = k
ordered-append (l ∷ held) [] t h k = cc
ordered-append held (Move.take m ∷ s) t h k = ground (arith, h, k, ordered-append (m ∷ held) s t)
ordered-append held (Move.free m ∷ s) t h k = ordered-append (released m held) s t h k
ordered-append held (Move.work ∷ s) t h k = ordered-append held s t h k

checks_ordered : (looks : ℕ) → ordered rank [] (decisions_checks looks) ≡ true
unfolding ordered below released lock_discrete dec_lt
checks_ordered zero = refl
checks_ordered (suc looks) =
    ordered-append [] decisions_check (decisions_checks looks) refl (checks_ordered looks)

ledgers_ordered : (looks : ℕ) → ordered rank [] (ledgers_checks looks) ≡ true
unfolding ordered below released lock_discrete dec_lt
ledgers_ordered zero = refl
ledgers_ordered (suc looks) =
    ordered-append [] (under Lock.peer_ledger_states) (ledgers_checks looks) refl
      (ledgers_ordered looks)

signatures_ordered :
    (inputs : ℕ) (rest : List Move)
    → ordered rank (Lock.utxo_set ∷ []) rest ≡ true
    → ordered rank (Lock.utxo_set ∷ []) (signature_verifications inputs ++ rest) ≡ true
unfolding ordered below released lock_discrete dec_lt
signatures_ordered zero rest h = h
signatures_ordered (suc inputs) rest h = signatures_ordered inputs rest h

routine_ordered : (r : Routine) → keeps_order r ≡ true → ordered rank [] (moves_of r) ≡ true
unfolding ordered below released lock_discrete dec_lt
routine_ordered Routine.peer_count h = refl
routine_ordered Routine.majority h = refl
routine_ordered Routine.account_verification h = refl
routine_ordered Routine.account_write h = refl
routine_ordered Routine.consensus_request h = refl
routine_ordered Routine.consensus_response h = refl
routine_ordered Routine.heartbeat h = refl
routine_ordered Routine.chain_output h = refl
routine_ordered Routine.ledger_response h = refl
routine_ordered Routine.ledger_request h = cc
routine_ordered Routine.adoption h = cc
routine_ordered (Routine.transaction_verification signed) h = cc
routine_ordered (Routine.decisions_wait looks) h =
    ordered-append [] (under Lock.total_peers ++ decisions_checks looks) (under Lock.peer_decisions)
      (ordered-append [] (under Lock.total_peers) (decisions_checks looks) refl
        (checks_ordered looks))
      refl
routine_ordered (Routine.ledgers_wait looks) h =
    ordered-append [] (under Lock.total_peers) (ledgers_checks looks) refl (ledgers_ordered looks)
routine_ordered (Routine.utxo_verification inputs true) h =
    signatures_ordered inputs (under Lock.client_decisions ++ free Lock.utxo_set ∷ []) refl
routine_ordered (Routine.utxo_verification inputs false) h =
    signatures_ordered inputs (free Lock.utxo_set ∷ []) refl
routine_ordered (Routine.utxo_write true) h = refl
routine_ordered (Routine.utxo_write false) h = refl

all_ordered :
    (rs : List Routine)
    → All (λ r. keeps_order r ≡ true) rs
    → ordered rank [] (moves_of_all rs) ≡ true
unfolding ordered
all_ordered [] h = refl
all_ordered (r ∷ rs) h =
    ordered-append [] (moves_of r) (moves_of_all rs) (routine_ordered r h.0) (all_ordered rs h.1)

tasks-IsOrdered :
    (rss : List (List Routine))
    → All (All (λ r. keeps_order r ≡ true)) rss
    → All (IsOrdered rank) (map task rss)
tasks-IsOrdered [] h = tt
tasks-IsOrdered (rs ∷ rss) h = (all_ordered rs h.0, tasks-IsOrdered rss h.1)

-- Any number of tasks, each of which calls any of the functions one after another that take locks,
-- save the verification of a transaction, the answer to a ledger request and the adoption of the
-- majority, never block each other: however they interleave and wherever they panic, after any
-- steps all are through and hold nothing or one can go on, and there are no more steps than moves
-- in the tasks.
pub ordered_tasks_end :
    (rss : List (List Routine)) (k : ℕ) {us : List Locker}
    → All (All (λ r. keeps_order r ≡ true)) rss
    → Goes (map task rss) k us
    → (All (λ t. t ≡ finished) us ⊎ CanGo us) × (k + moves_left us ≤ moves_left (map task rss))
ordered_tasks_end rss k {us} h w =
    let (ok, fewer) = Goes-keeps rank k w (tasks-IsOrdered rss h) in
    (through_or_goes rank us ok, fewer)
