-- ===== src/Locks/Progress.antt =====
-- The locks of src/modules/validation.rs: tasks that take them in the order of a rank do not block
-- each other for good.
use mini_block_chain.Prelude.{
  ℕ, zero, suc, ◌+◌, ◌≤◌, ◌<◌, ◌≡◌, refl, sym, ap, ◌∙◌, ◌⊎◌, inl, inr, true, some, List, [], ◌∷◌,
  ◌++◌, arith, Bool-cases, length, All,
}
use mini_block_chain.Locks.{
  Lock, Move, Locker, finished, holds, someone_holds, released, next_of, Go, Goes,
}
use mini_block_chain.Locks.Order.{
  ordered, IsOrdered, is_empty, below-lt, bound, below_bound, holder, someone_of_others, All-split,
  All-join, CanGo, locker,
}

no_lock_held : (m : Lock) (held : List Lock) → is_empty held ≡ true → holds m held ≡ true → ⊥
unfolding holds
no_lock_held m [] e h = cc
no_lock_held m (l ∷ ls) e h = cc

-- How many moves the tasks have left.
unfoldable pub moves_left : List Locker → ℕ
moves_left [] = 0
moves_left (t ∷ ts) = length t.rest + moves_left ts

moves_split :
    (before : List Locker) (t : Locker) (behind : List Locker)
    → moves_left (before ++ t ∷ behind) ≡ length t.rest + moves_left (before ++ behind)
unfolding moves_left
moves_split [] t behind = refl
moves_split (x ∷ before) t behind = omega (arith, moves_split before t behind)

module _ (rank : Lock → ℕ) where
  -- A task takes its next move, or waits for a lock that another task holds.
  goes_or_waits :
      (before behind : List Locker) (held : List Lock) (move : Move) (rest : List Move)
      → ordered rank held (move ∷ rest) ≡ true
      → CanGo (before ++ locker held (move ∷ rest) ∷ behind)
        ⊎ ((l : Lock) × (move ≡ Move.take l)
            × (someone_holds l (before ++ locker held (move ∷ rest) ∷ behind) ≡ true))
  unfolding ordered next_of
  goes_or_waits before behind held (Move.free l) rest o = inl (
    before ++ locker (released l held) rest ∷ behind,
    Go.goes before behind (locker held (Move.free l ∷ rest)) (locker (released l held) rest) refl,
  )
  goes_or_waits before behind held Move.work rest o = inl (
    before ++ locker held rest ∷ behind,
    Go.goes before behind (locker held (Move.work ∷ rest)) (locker held rest) refl,
  )
  goes_or_waits before behind held (Move.take l) rest o =
      let waiter : Locker = locker held (Move.take l ∷ rest) in
      elim (Bool-cases (holds l held)) [
        | inl q ↦
            let loop : rank l < rank l = below-lt rank l l held (ground (arith, o)) q in
            absurd (omega (arith, loop))
        | inr q ↦ elim (Bool-cases (someone_holds l (before ++ behind))) [
          | inl e ↦ inr (l, refl, someone_of_others l before behind waiter e)
          | inr e ↦ inl (
            before ++ locker (l ∷ held) rest ∷ behind,
            Go.goes before behind waiter (locker (l ∷ held) rest) (ground (arith, q, e)),
          )
        ]
      ]

  -- A lock of a higher rank that is held too.
  abbrev HigherHeld : Lock → List Locker → Type 0
  HigherHeld m ts = (l : Lock) × (rank m < rank l) × (someone_holds l ts ≡ true)

  -- The holder of a lock goes on, or waits for a lock of a higher rank.
  holder_goes :
      (m : Lock) (before behind : List Locker) (held : List Lock) (rest : List Move)
      → holds m held ≡ true
      → ordered rank held rest ≡ true
      → CanGo (before ++ locker held rest ∷ behind)
        ⊎ HigherHeld m (before ++ locker held rest ∷ behind)
  unfolding ordered
  holder_goes m before behind held [] h o = absurd (no_lock_held m held o h)
  holder_goes m before behind held (move ∷ rest) h o =
      elim (goes_or_waits before behind held move rest o) [
        | inl go ↦ inl go
        | inr (l, e, q) ↦
            let taken : ordered rank held (Move.take l ∷ rest) ≡ true =
              ap (λ (v : Move). ordered rank held (v ∷ rest)) (sym e) ∙ o in
            inr (l, below-lt rank l m held (ground (arith, taken)) h, q)
      ]

  -- Where a lock is held among ordered tasks, some task can go on.
  climb :
      (k : ℕ) (m : Lock) (ts : List Locker)
      → bound rank ≤ rank m + k
      → All (IsOrdered rank) ts
      → someone_holds m ts ≡ true
      → CanGo ts
  climb zero m ts b o h = absurd (omega (arith, b, below_bound rank m))
  climb (suc k) m ts b o h =
      let (before, t, behind, split, found) = holder m ts h in
      let (_, ok, _) = All-split (IsOrdered rank) before t behind (rw (sym split) o) in
      elim (holder_goes m before behind t.held t.rest found ok) [
        | inl go ↦ rw split go
        | inr (l, lower, held) ↦ climb k l ts (omega (arith, b, lower)) o (rw split held)
      ]

  abbrev Unfinished : List Locker → Type 0
  Unfinished ts =
      (before : List Locker) × (held : List Lock) × (move : Move) × (rest : List Move)
      × (behind : List Locker) × (ts ≡ before ++ locker held (move ∷ rest) ∷ behind)

  passed :
      (t : Locker) (ts : List Locker)
      → t ≡ finished
      → All (λ u. u ≡ finished) ts ⊎ Unfinished ts
      → All (λ u. u ≡ finished) (t ∷ ts) ⊎ Unfinished (t ∷ ts)
  passed t ts e (inl through) = inl (e, through)
  passed t ts e (inr (before, held, move, rest, behind, split)) =
      inr (t ∷ before, held, move, rest, behind, ap (λ (us : List Locker). t ∷ us) split)

  at_head :
      (held : List Lock) (rest : List Move) (ts : List Locker)
      → ordered rank held rest ≡ true
      → All (λ u. u ≡ finished) ts ⊎ Unfinished ts
      → All (λ u. u ≡ finished) (locker held rest ∷ ts) ⊎ Unfinished (locker held rest ∷ ts)
  unfolding ordered
  at_head held (move ∷ rest) ts o h = inr ([], held, move, rest, ts, refl)
  at_head [] [] ts o h = passed finished ts refl h
  at_head (l ∷ held) [] ts o h = cc

  some_task_left :
      (ts : List Locker) → All (IsOrdered rank) ts → All (λ t. t ≡ finished) ts ⊎ Unfinished ts
  some_task_left [] o = inl tt
  some_task_left (t ∷ ts) o = at_head t.held t.rest ts o.0 (some_task_left ts o.1)

  -- Ordered tasks are all through, or one of them goes on.
  pub through_or_goes :
      (ts : List Locker) → All (IsOrdered rank) ts → All (λ t. t ≡ finished) ts ⊎ CanGo ts
  through_or_goes ts o = elim (some_task_left ts o) [
    | inl through ↦ inl through
    | inr (before, held, move, rest, behind, split) ↦
        let (_, ok, _) =
          All-split (IsOrdered rank) before (locker held (move ∷ rest)) behind (rw (sym split) o) in
        elim (goes_or_waits before behind held move rest ok) [
          | inl go ↦ inr (rw split go)
          | inr (l, _, q) ↦ inr (climb (bound rank) l ts (omega arith) o (rw split q))
        ]
  ]

  -- A move keeps tasks ordered, and leaves fewer moves.
  move_keeps :
      (others : List Locker) (held : List Lock) (rest : List Move) (t : Locker)
      → next_of others held rest ≡ some t
      → ordered rank held rest ≡ true
      → IsOrdered rank t × (length rest ≡ suc (length t.rest))
  unfolding next_of ordered
  move_keeps others held [] t e o = cc
  move_keeps others held (Move.take m ∷ rest) t e o = ground (arith, e, o)
  move_keeps others held (Move.free m ∷ rest) t e o = ground (arith, e, o)
  move_keeps others held (Move.work ∷ rest) t e o = ground (arith, e, o)

  step_keeps :
      {ts us : List Locker}
      → Go ts us
      → All (IsOrdered rank) ts
      → All (IsOrdered rank) us × (moves_left us < moves_left ts)
  unfolding ordered
  step_keeps (Go.goes before behind t t' e) o =
      let (a, b, d) = All-split (IsOrdered rank) before t behind o in
      let (kept, fewer) = move_keeps (before ++ behind) t.held t.rest t' e b in
      (
        All-join (IsOrdered rank) before t' behind a kept d,
        omega (arith, fewer, moves_split before t behind, moves_split before t' behind),
      )
  step_keeps (Go.panics before behind held rest) o =
      let (a, b, d) = All-split (IsOrdered rank) before (locker held (Move.work ∷ rest)) behind o in
      (
        All-join (IsOrdered rank) before finished behind a refl d,
        omega (
          arith,
          moves_split before (locker held (Move.work ∷ rest)) behind,
          moves_split before finished behind,
        ),
      )

  -- After any steps the tasks are still ordered, and each step took a move.
  pub Goes-keeps :
      {ts us : List Locker} (k : ℕ)
      → Goes ts k us
      → All (IsOrdered rank) ts
      → All (IsOrdered rank) us × (k + moves_left us ≤ moves_left ts)
  Goes-keeps zero Goes.here o = (o, omega arith)
  Goes-keeps (suc k) (Goes.next w step) o =
      let (mid, fewer) = Goes-keeps k w o in
      let (end, less) = step_keeps step mid in (end, omega (arith, fewer, less))
