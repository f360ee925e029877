-- ===== src/System/Refines.antt =====
-- src/modules/validation.rs: the handlers as runs of their stages, with what the other tasks do in
-- between.
use mini_block_chain.Prelude.{
  ℕ, ◌≡◌, refl, sym, ◌≢◌, ◌⊎◌, inl, inr, Bool, true, false, some, List, [], ◌∷◌, arith, ◌==◌,
  Bool-cases, Option-cases, All,
}
use mini_block_chain.External.{Json, Crypto}
use mini_block_chain.Node.{
  ValidatorNode, Outcome, done, panicked, waiting, Action, Env, pure, ◌>>=◌, ◌>>◌, update,
  update_active_peer_count,
}
use mini_block_chain.Node.Request.{hash_network_request}
use mini_block_chain.Consensus.{
  check_all_block_decisions_received, wait_loop, await_all_block_decisions, determine_majority,
  majority_of,
}
use mini_block_chain.Ledger.{Schedule, consult}
use mini_block_chain.System.{Kind, Stage, check, advance}

-- The steps of the other tasks during a handler.
abbrev pub steps_of : Schedule → List Env
steps_of s = s.verified ∷ s.counted ∷ s.resumed ∷ s.decided ∷ s.height_read ∷ s.spent ∷ s.waits

-- The stage in which a part of a handler ends.
abbrev pub ends_in : {A : Type 0} → (A → Stage) → Outcome A → Stage
ends_in ended (done a) = ended a
ends_in ended panicked = Stage.failed
ends_in ended waiting = Stage.checking

module _ {Value : Type 0} (x : Json Value) (c : Crypto) (k : Kind) (r : Value)
    (Other : Env → Type 0) where
  -- A run of the handler of a request: its own stages, and the steps of others.
  pub data Run (from : Stage) (n : ValidatorNode) : Stage → ValidatorNode → Type 0 where
    rests : Run from n from n
    goes_on :
        {to : Stage} {m : ValidatorNode} (time : ℕ)
        → Run from n to m
        → Run from n (advance x c k r time to m).0 (advance x c k r time to m).1
    meets :
        {to : Stage} {m : ValidatorNode} (e : Env) → Other e → Run from n to m → Run from n to (e m)

  pub join :
      {s t : Stage} {l m : ValidatorNode} {u : Stage} {n : ValidatorNode}
      → Run s l t m
      → Run t m u n
      → Run s l u n
  join a Run.rests = a
  join a (Run.goes_on time b) = Run.goes_on time (join a b)
  join a (Run.meets e h b) = Run.meets e h (join a b)

  -- A part of a handler that starts at a stage is a run from there to the stage its outcome ends in.
  abbrev pub Realizes : {A : Type 0} → Stage → (A → Stage) → Action A → Type 0
  Realizes from ended m = (n : ValidatorNode) → Run from n (ends_in ended (m n).0) (m n).1

  pub bind-Realizes :
      {A B : Type 0} {from : Stage} (mid : A → Stage) (ended : B → Stage) (m : Action A)
      (f : A → Action B)
      → Realizes from mid m
      → ((a : A) → Realizes (mid a) ended (f a))
      → Realizes from ended (m >>= f)
  bind-Realizes {A} {B} {from} mid ended m f h g n = go (m n) (h n)
    where
      go :
          (q : Outcome A × ValidatorNode)
          → Run from n (ends_in mid q.0) q.1
          → Run from n (ends_in ended (((λ _. q) >>= f) n).0) (((λ _. q) >>= f) n).1
      go (done a, n') w = join w (g a n')
      go (panicked, n') w = w
      go (waiting, n') w = w

  pub one :
      (time : ℕ) (from to : Stage) (n n' : ValidatorNode)
      → (advance x c k r time from n).0 ≡ to
      → (advance x c k r time from n).1 ≡ n'
      → Run from n to n'
  one time from to n n' e f = rw (sym e, sym f) (Run.goes_on time Run.rests)

  update-Realizes : (at : Stage) (e : Env) → Other e → Realizes at (λ _. at) (update e)
  update-Realizes at e h n = Run.meets e h Run.rests

  counts-Realizes : Realizes Stage.verified (λ _. Stage.counted) (update update_active_peer_count)
  unfolding advance
  counts-Realizes n = Run.goes_on 0 Run.rests

  abbrev pub after_decision : Bool → Stage
  after_decision true = Stage.writing
  after_decision false = Stage.finished

  decides-Realizes : Realizes Stage.deciding after_decision (determine_majority x c.sha256 r)
  unfolding advance determine_majority majority_of
  decides-Realizes n =
      one 0 Stage.deciding (ends_in after_decision (determine_majority x c.sha256 r n).0) n
        (determine_majority x c.sha256 r n).1 (ground arith) refl

  -- A wait that is not prolonged ends as one look at its condition does.
  at_once :
      (es : List Env) (n : ValidatorNode)
      → (es ≡ [])
        ⊎ (check_all_block_decisions_received (hash_network_request x c.sha256 r) n ≢ some false)
      → (check x c r n
          ≡ ends_in (λ _. Stage.deciding) (wait_loop (hash_network_request x c.sha256 r) es n).0)
        × (n ≡ (wait_loop (hash_network_request x c.sha256 r) es n).1)
  unfolding wait_loop check
  at_once [] n h = ground arith
  at_once (e ∷ es) n (inl q) = cc
  at_once (e ∷ es) n (inr h) = ground (arith, h)

  looks :
      (es : List Env) (n : ValidatorNode)
      → (es ≡ [])
        ⊎ (check_all_block_decisions_received (hash_network_request x c.sha256 r) n ≢ some false)
      → Run Stage.checking n
          (ends_in (λ _. Stage.deciding) (wait_loop (hash_network_request x c.sha256 r) es n).0)
          (wait_loop (hash_network_request x c.sha256 r) es n).1
  unfolding advance
  looks es n h =
      one 0 Stage.checking
        (ends_in (λ _. Stage.deciding) (wait_loop (hash_network_request x c.sha256 r) es n).0) n
        (wait_loop (hash_network_request x c.sha256 r) es n).1 (at_once es n h).0 (at_once es n h).1

  stays :
      (n : ValidatorNode)
      → check_all_block_decisions_received (hash_network_request x c.sha256 r) n ≡ some false
      → Run Stage.checking n Stage.checking n
  unfolding advance check
  stays n q = one 0 Stage.checking Stage.checking n n (ground (arith, q)) refl

  loop-Realizes :
      (es : List Env)
      → All Other es
      → Realizes Stage.checking
          (λ _. Stage.deciding)
          (wait_loop (hash_network_request x c.sha256 r) es)
  unfolding wait_loop
  loop-Realizes [] h n = looks [] n (inl refl)
  loop-Realizes (e ∷ es) h n =
      let hash = hash_network_request x c.sha256 r in
      elim (Option-cases (check_all_block_decisions_received hash n)) [
        | inl q ↦ looks (e ∷ es) n (inr (λ p. cc (p, q)))
        | inr (true, q) ↦ looks (e ∷ es) n (inr (λ p. cc (p, q)))
        | inr (false, q) ↦
            rw (q, wait_loop) (join (Run.meets e h.0 (stays n q)) (loop-Realizes es h.1 (e n)))
      ]

  awaits-Realizes :
      (es : List Env)
      → All Other es
      → Realizes Stage.counted
          (λ _. Stage.deciding)
          (await_all_block_decisions (hash_network_request x c.sha256 r) es)
  unfolding await_all_block_decisions advance
  awaits-Realizes es h n = elim (Bool-cases (n.total_peers == 0)) [
    | inl e ↦
        rw (e, await_all_block_decisions)
          (one 0 Stage.counted Stage.deciding n n (ground (arith, e)) refl)
    | inr e ↦
        rw (e, await_all_block_decisions)
          (join (one 0 Stage.counted Stage.checking n n (ground (arith, e)) refl)
            (loop-Realizes es h n))
  ]

  -- The middle of every handler, from the count of the peers to the write, from its end.
  abbrev told : Schedule → Bool → Action Bool
  told s agreed = update s.decided >> pure agreed

  abbrev decided : Schedule → Action Bool
  decided s = update s.resumed >> (determine_majority x c.sha256 r >>= told s)

  abbrev awaited : Schedule → Action Bool
  awaited s =
      update s.counted
      >> (await_all_block_decisions (hash_network_request x c.sha256 r) s.waits >> decided s)

  pub then-Realizes :
      {A : Type 0} {from : Stage} (mid : Stage) (ended : A → Stage) (m : Action (Unit {0}))
      (f : Action A)
      → Realizes from (λ _. mid) m
      → Realizes mid ended f
      → Realizes from ended (m >> f)
  then-Realizes mid ended m f h g = bind-Realizes (λ _. mid) ended m (λ _. f) h (λ _. g)

  told-Realizes :
      (s : Schedule)
      → Other s.decided
      → (b : Bool) → Realizes (after_decision b) after_decision (told s b)
  told-Realizes s o b =
      then-Realizes (after_decision b) after_decision (update s.decided) (pure b)
        (update-Realizes (after_decision b) s.decided o) (λ n. Run.rests)

  decided-Realizes :
      (s : Schedule)
      → Other s.resumed
      → Other s.decided
      → Realizes Stage.deciding after_decision (decided s)
  decided-Realizes s f g =
      then-Realizes Stage.deciding after_decision (update s.resumed)
        (determine_majority x c.sha256 r >>= told s) (update-Realizes Stage.deciding s.resumed f)
        (bind-Realizes after_decision after_decision (determine_majority x c.sha256 r) (told s)
          decides-Realizes (told-Realizes s g))

  awaited-Realizes :
      (s : Schedule) → All Other (steps_of s) → Realizes Stage.counted after_decision (awaited s)
  awaited-Realizes s (v, (d, (f, (g, (_, (_, w)))))) =
      let hash = hash_network_request x c.sha256 r in
      then-Realizes Stage.counted after_decision (update s.counted)
        (await_all_block_decisions hash s.waits >> decided s)
        (update-Realizes Stage.counted s.counted d)
        (then-Realizes Stage.deciding after_decision (await_all_block_decisions hash s.waits)
          (decided s) (awaits-Realizes s.waits w) (decided-Realizes s f g))

  pub consult-Realizes :
      (s : Schedule)
      → All Other (steps_of s)
      → Realizes Stage.verified after_decision (consult x c r s)
  unfolding consult
  consult-Realizes s o =
      then-Realizes Stage.verified after_decision (update s.verified)
        (update update_active_peer_count >> awaited s)
        (update-Realizes Stage.verified s.verified o.0)
        (then-Realizes Stage.counted after_decision (update update_active_peer_count) (awaited s)
          counts-Realizes (awaited-Realizes s o))
