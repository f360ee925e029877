-- ===== src/Locks/Deadlock.antt =====
-- src/modules/validation.rs: `verify_account_creation_independently` and
-- `verify_transaction_independently`, which take two locks in opposite orders.
use mini_block_chain.Prelude.{
  ℕ, zero, suc, ◌≡◌, refl, sym, ◌∙◌, ◌≢◌, inl, inr, Bool, true, false, none, some, List, [], ◌∷◌,
  ◌++◌, arith, if◌then◌else◌,
}
use mathlib.Core.List.{Memᴰ}
use mathlib.Core.List.Memᴰ
use mini_block_chain.Locks.{
  Lock, lock_discrete, Move, Locker, finished, holds, someone_holds, next_of, Go, Goes,
}
use mini_block_chain.Locks.Routines.{signature_verification}
use mini_block_chain.Locks.Tasks.{Routine, task}

-- The first holds the accounts and waits for the decisions, the second the other way round.
abbrev pub creation_waits : Locker
creation_waits = record {
  held = Lock.merkle_tree ∷ [];
  rest =
      Move.take Lock.client_decisions
      ∷ Move.work
      ∷ Move.free Lock.client_decisions
      ∷ Move.free Lock.merkle_tree
      ∷ [];
}

abbrev pub transaction_waits : Bool → Locker
transaction_waits signed = record {
  held = Lock.client_decisions ∷ [];
  rest =
      Move.take Lock.merkle_tree
        ∷ Move.work
        ∷ ((if signed then signature_verification else [])
            ++ Move.work ∷ Move.free Lock.merkle_tree ∷ Move.free Lock.client_decisions ∷ [])
      ++ [];
}

holds_in :
    (m : Lock) (t : Locker) (ts : List Locker)
    → Memᴰ t ts
    → holds m t.held ≡ true
    → someone_holds m ts ≡ true
unfolding someone_holds
holds_in m t [] i h = elim i [ ]
holds_in m t (u ∷ us) (Memᴰ.head e) h = ground (arith, e, h)
holds_in m t (u ∷ us) (Memᴰ.tail i) h = ground (arith, holds_in m t us i h)

module _ (u t : Locker) (before behind : List Locker) (i : Memᴰ u (before ++ t ∷ behind))
    (d : u ≢ t) where
  -- A task other than the one that moves is among the others, and stays.
  among_others : Memᴰ u (before ++ behind)
  among_others = elim (Memᴰ.append_cases before i) [
    | inl j ↦ Memᴰ.append_left behind j
    | inr j ↦ elim (Memᴰ.cases_cons j) [
      | inl e ↦ absurd (d e)
      | inr j' ↦ Memᴰ.append_right before j'
    ]
  ]

  stays : (t' : Locker) → Memᴰ u (before ++ t' ∷ behind)
  stays t' = elim (Memᴰ.append_cases before i) [
    | inl j ↦ Memᴰ.append_left (t' ∷ behind) j
    | inr j ↦ elim (Memᴰ.cases_cons j) [
      | inl e ↦ absurd (d e)
      | inr j' ↦ Memᴰ.append_right before (Memᴰ.tail j')
    ]
  ]

module _ (signed : Bool) where
  abbrev BothWait : List Locker → Type 0
  BothWait ts = Memᴰ creation_waits ts × Memᴰ (transaction_waits signed) ts

  creation_blocked :
      (others : List Locker)
      → Memᴰ (transaction_waits signed) others
      → next_of others creation_waits.held creation_waits.rest ≡ none
  unfolding next_of holds lock_discrete
  creation_blocked others j =
      ground (arith, holds_in Lock.client_decisions (transaction_waits signed) others j refl)

  transaction_blocked :
      (others : List Locker)
      → Memᴰ creation_waits others
      → next_of others (transaction_waits signed).held (transaction_waits signed).rest ≡ none
  unfolding next_of holds lock_discrete
  transaction_blocked others i =
      ground (arith, holds_in Lock.merkle_tree creation_waits others i refl)

  differ : creation_waits ≢ transaction_waits signed
  differ e = cc e

  creation_idle :
      (before behind : List Locker) (t t' : Locker)
      → next_of (before ++ behind) t.held t.rest ≡ some t'
      → BothWait (before ++ t ∷ behind)
      → creation_waits ≢ t
  creation_idle before behind t t' e (i, j) p =
      let other : Memᴰ (transaction_waits signed) (before ++ behind) =
        among_others (transaction_waits signed) t before behind j (λ q. differ (p ∙ sym q)) in
      cc (e, p, creation_blocked (before ++ behind) other)

  transaction_idle :
      (before behind : List Locker) (t t' : Locker)
      → next_of (before ++ behind) t.held t.rest ≡ some t'
      → BothWait (before ++ t ∷ behind)
      → transaction_waits signed ≢ t
  transaction_idle before behind t t' e (i, j) p =
      let other : Memᴰ creation_waits (before ++ behind) =
        among_others creation_waits t before behind i (λ q. differ (q ∙ sym p)) in
      cc (e, p, transaction_blocked (before ++ behind) other)

  both_stay : {ts us : List Locker} → Go ts us → BothWait ts → BothWait us
  both_stay (Go.goes before behind t t' e) (i, j) = (
    stays creation_waits t before behind i (creation_idle before behind t t' e (i, j)) t',
    stays (transaction_waits signed) t before behind j
        (transaction_idle before behind t t' e (i, j)) t',
  )
  both_stay (Go.panics before behind held rest) (i, j) =
      let worker : Locker = record { held = held; rest = Move.work ∷ rest } in
      (
        stays creation_waits worker before behind i (λ e. cc e) finished,
        stays (transaction_waits signed) worker before behind j (λ e. cc e) finished,
      )

  Goes-BothWait : {ts us : List Locker} (k : ℕ) → Goes ts k us → BothWait ts → BothWait us
  Goes-BothWait zero Goes.here w = w
  Goes-BothWait (suc k) (Goes.next g step) w = both_stay step (Goes-BothWait k g w)

  -- Next to any other tasks that hold neither the accounts nor the decisions: the verification of
  -- an account creation or of a faucet request, and that of a transaction, come after three steps
  -- to a point at which each waits for the other; from there on, whatever the other tasks do, both
  -- wait for ever, and keep their locks.
  pub opposite_orders_deadlock :
      (others : List Locker) (k : ℕ) {us : List Locker}
      → someone_holds Lock.merkle_tree others ≡ false
      → someone_holds Lock.client_decisions others ≡ false
      → Goes (creation_waits ∷ transaction_waits signed ∷ others) k us
      → Goes
          (task (Routine.account_verification ∷ [])
            ∷ task (Routine.transaction_verification signed ∷ [])
            ∷ others)
          3
          (creation_waits ∷ transaction_waits signed ∷ others)
        × Memᴰ creation_waits us
        × Memᴰ (transaction_waits signed) us
  unfolding next_of holds someone_holds lock_discrete
  opposite_orders_deadlock others k m d w =
      let creation : Locker = task (Routine.account_verification ∷ []) in
      let transaction : Locker = task (Routine.transaction_verification signed ∷ []) in
      let working : Locker = record {
        held = Lock.merkle_tree ∷ [];
        rest = Move.work ∷ creation_waits.rest;
      } in
      let first : Go (creation ∷ transaction ∷ others) (working ∷ transaction ∷ others) =
        Go.goes [] (transaction ∷ others) creation working (ground (arith, m)) in
      let second : Go (working ∷ transaction ∷ others) (creation_waits ∷ transaction ∷ others) =
        Go.goes [] (transaction ∷ others) working creation_waits refl in
      let third : Go (creation_waits ∷ transaction ∷ others)
          (creation_waits ∷ transaction_waits signed ∷ others) =
        Go.goes (creation_waits ∷ []) others transaction (transaction_waits signed)
          (ground (arith, d)) in
      let both = Goes-BothWait k w (Memᴰ.head refl, Memᴰ.tail (Memᴰ.head refl)) in
      (Goes.next (Goes.next (Goes.next Goes.here first) second) third, both.0, both.1)
