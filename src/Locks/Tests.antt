-- ===== src/Locks/Tests.antt =====
-- Examples: two tasks of a node, of which one has counted its peers; and two verifications that
-- block each other.
use mini_block_chain.Prelude.{◌+◌, ◌≤◌, ◌≡◌, refl, ◌⊎◌, true, List, [], ◌∷◌, map, All}
use mathlib.Core.List.{Memᴰ}
use mini_block_chain.Locks.{
  lock_discrete, holds, Lock, Move, Locker, finished, someone_holds, next_of, Go, Goes,
}
use mini_block_chain.Locks.Order.{CanGo}
use mini_block_chain.Locks.Progress.{moves_left}
use mini_block_chain.Locks.Tasks.{Routine, task, ordered_tasks_end}
use mini_block_chain.Locks.Deadlock.{creation_waits, transaction_waits, opposite_orders_deadlock}

-- The node creates an account, and hears a heartbeat and a vote.
abbrev creation : List Routine
creation =
    Routine.account_verification
    ∷ Routine.peer_count
    ∷ Routine.decisions_wait 2
    ∷ Routine.majority
    ∷ Routine.account_write
    ∷ []

abbrev messages : List Routine
messages = Routine.heartbeat ∷ Routine.consensus_response ∷ []

abbrev begun : Locker
begun = record { held = Lock.active_peers ∷ []; rest = tail_of (task messages).rest }
  where
    tail_of : List Move → List Move
    tail_of [] = []
    tail_of (m ∷ ms) = ms

first_step : Goes (map task (creation ∷ messages ∷ [])) 1 (task creation ∷ begun ∷ [])
unfolding next_of holds someone_holds
first_step = Goes.next Goes.here (Go.goes (task creation ∷ []) [] (task messages) begun refl)

ordered_tasks_end_example :
    (All (λ t. t ≡ finished) (task creation ∷ begun ∷ []) ⊎ CanGo (task creation ∷ begun ∷ []))
    × (1 + moves_left (task creation ∷ begun ∷ [])
        ≤ moves_left (map task (creation ∷ messages ∷ [])))
ordered_tasks_end_example =
    ordered_tasks_end (creation ∷ messages ∷ []) 1
      ((refl, (refl, (refl, (refl, (refl, tt))))), ((refl, (refl, tt)), tt)) first_step

opposite_orders_deadlock_example :
    Goes
      (task (Routine.account_verification ∷ [])
        ∷ task (Routine.transaction_verification true ∷ [])
        ∷ task messages
        ∷ [])
      3
      (creation_waits ∷ transaction_waits true ∷ task messages ∷ [])
    × Memᴰ creation_waits (creation_waits ∷ transaction_waits true ∷ begun ∷ [])
    × Memᴰ (transaction_waits true) (creation_waits ∷ transaction_waits true ∷ begun ∷ [])
unfolding next_of someone_holds holds lock_discrete
opposite_orders_deadlock_example = opposite_orders_deadlock true (task messages ∷ []) 1 refl refl (
    Goes.next Goes.here
      (Go.goes (creation_waits ∷ transaction_waits true ∷ []) [] (task messages) begun refl))
