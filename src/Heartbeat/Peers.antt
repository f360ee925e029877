-- ===== src/Heartbeat/Peers.antt =====
-- src/modules/validation.rs, `handle_heartbeat`: the list of active peers over its three steps.
use mini_block_chain.Prelude.{
  ℕ, ◌-◌, ◌≤◌, ◌≡◌, refl, ◌≢◌, inl, inr, ite, true, false, Option, none, some, [], ◌∷◌, ◌++◌, arith,
  ltb, if◌then◌else◌, Bool-cases, All,
}
use mini_block_chain.Bytes.{Text, bytes_discrete}
use mini_block_chain.HashMap.{get, IsUnique}
use mini_block_chain.External.{Json, Key}
use mini_block_chain.Node.{ValidatorNode, done}
use mini_block_chain.Heartbeat.{
  heartbeat_timeout, Peers, is_listed, touch, retain_recent, record_heartbeat, Reply,
  handle_heartbeat,
}

-- No heartbeat on record comes from after the given time.
abbrev pub IsPast : ℕ → Peers → Type 0
IsPast now = All (λ p. p.1 ≤ now)

-- The time of a peer, if its heartbeat is recent enough.
abbrev pub recent : ℕ → Option ℕ → Option ℕ
recent now none = none
recent now (some t) = if ltb (now - t) heartbeat_timeout then some t else none

abbrev reset : ℕ → Option ℕ → Option ℕ
reset now none = none
reset now (some t) = some now

get-touch :
    (port p : Text) (now : ℕ) (peers : Peers)
    → get bytes_discrete p (touch port now peers)
      ≡ ite
          (bytes_discrete port p)
          (reset now (get bytes_discrete p peers))
          (get bytes_discrete p peers)
unfolding get touch
get-touch port p now [] = ground arith
get-touch port p now ((q, t) ∷ ps) = ground (arith, get-touch port p now ps)

get-push :
    (port p : Text) (now : ℕ) (peers : Peers)
    → is_listed port peers ≡ false
    → get bytes_discrete p (peers ++ (port, now) ∷ [])
      ≡ ite (bytes_discrete port p) (some now) (get bytes_discrete p peers)
unfolding get is_listed
get-push port p now [] h = refl
get-push port p now ((q, t) ∷ ps) h = ground (arith, get-push port p now ps)

listed_found :
    (port : Text) (peers : Peers)
    → is_listed port peers ≡ true
    → get bytes_discrete port peers ≢ none
unfolding get is_listed
listed_found port [] h = cc
listed_found port ((q, t) ∷ ps) h = ground (arith, listed_found port ps)

get-record_heartbeat :
    (port p : Text) (now : ℕ) (peers : Peers)
    → get bytes_discrete p (record_heartbeat port now peers)
      ≡ ite (bytes_discrete port p) (some now) (get bytes_discrete p peers)
unfolding record_heartbeat
get-record_heartbeat port p now peers =
    ground (arith, get-touch port p now peers, get-push port p now peers, listed_found port peers)

touch-IsUnique :
    (port : Text) (now : ℕ) (peers : Peers)
    → IsUnique bytes_discrete peers
    → IsUnique bytes_discrete (touch port now peers)
unfolding touch get
touch-IsUnique port now [] u = tt
touch-IsUnique port now ((q, t) ∷ ps) u =
    ground (arith, u.0, get-touch port q now ps, touch-IsUnique port now ps u.1)

push-IsUnique :
    (port : Text) (now : ℕ) (peers : Peers)
    → IsUnique bytes_discrete peers
    → is_listed port peers ≡ false
    → IsUnique bytes_discrete (peers ++ (port, now) ∷ [])
unfolding get is_listed
push-IsUnique port now [] u h = (refl, tt)
push-IsUnique port now ((q, t) ∷ ps) u h =
    ground (arith, u.0, get-push port q now ps, push-IsUnique port now ps u.1)

pub record_heartbeat-IsUnique :
    (port : Text) (now : ℕ) (peers : Peers)
    → IsUnique bytes_discrete peers
    → IsUnique bytes_discrete (record_heartbeat port now peers)
unfolding record_heartbeat
record_heartbeat-IsUnique port now peers u =
    ground (arith, touch-IsUnique port now peers u, push-IsUnique port now peers u)

push-IsPast :
    (port : Text) (now : ℕ) (ps : Peers) → IsPast now ps → IsPast now (ps ++ (port, now) ∷ [])
push-IsPast port now [] h = (omega arith, tt)
push-IsPast port now (p ∷ ps) h = (h.0, push-IsPast port now ps h.1)

touch-IsPast : (port : Text) (now : ℕ) (ps : Peers) → IsPast now ps → IsPast now (touch port now ps)
unfolding touch
touch-IsPast port now [] h = tt
touch-IsPast port now ((q, t) ∷ ps) h = (ground (arith, h.0), touch-IsPast port now ps h.1)

record_heartbeat-IsPast :
    (port : Text) (now : ℕ) (peers : Peers)
    → IsPast now peers
    → IsPast now (record_heartbeat port now peers)
unfolding record_heartbeat
record_heartbeat-IsPast port now peers h = elim (Bool-cases (is_listed port peers)) [
  | inl e ↦ rw (e, record_heartbeat) (touch-IsPast port now peers h)
  | inr e ↦ rw (e, record_heartbeat) (push-IsPast port now peers h)
]

-- With no heartbeat from the future nothing panics, and exactly the recent entries stay.
retain_recent_lem :
    (p : Text) (now : ℕ) (peers : Peers)
    → IsPast now peers
    → IsUnique bytes_discrete peers
    → ((retain_recent now peers).0 ≡ false)
      × (get bytes_discrete p (retain_recent now peers).1 ≡ recent now (get bytes_discrete p peers))
      × IsUnique bytes_discrete (retain_recent now peers).1
unfolding retain_recent get
retain_recent_lem p now [] h u = (refl, refl, tt)
retain_recent_lem p now ((q, t) ∷ ps) h u =
    let (ok, found, unique) = retain_recent_lem p now ps h.1 u.1 in
    let (_, absent, _) = retain_recent_lem q now ps h.1 u.1 in
    (
      ground (arith, h.0, ok),
      ground (arith, h.0, u.0, found, absent),
      ground (arith, h.0, u.0, absent, unique),
    )

module _ {Value : Type 0} (x : Json Value) where
  -- A heartbeat with a port, at a time that no recorded heartbeat lies after, where no peer is
  -- listed twice: the handler ends, the sender is active as of now, every other peer is active
  -- with its last heartbeat if that is less than ten seconds old and else is dropped, still no
  -- peer is listed twice, and nothing else changes.
  pub handle_heartbeat_lem :
      (r : Value) (port : Text) (now : ℕ) (n : ValidatorNode)
      → x.as_str (x.index r Key.port_address) ≡ some port
      → IsPast now n.active_peers
      → IsUnique bytes_discrete n.active_peers
      → let (outcome, n') = handle_heartbeat x r now n in
        (outcome ≡ done Reply.handled)
        × ((p : Text)
            → get bytes_discrete p n'.active_peers
              ≡ ite
                  (bytes_discrete port p)
                  (some now)
                  (recent now (get bytes_discrete p n.active_peers)))
        × IsUnique bytes_discrete n'.active_peers
        × (n' ≡ record n { active_peers = n'.active_peers })
  unfolding handle_heartbeat
  handle_heartbeat_lem r port now n e h u =
      let peers : Peers = record_heartbeat port now n.active_peers in
      let past : IsPast now peers = record_heartbeat-IsPast port now n.active_peers h in
      let unique : IsUnique bytes_discrete peers =
        record_heartbeat-IsUnique port now n.active_peers u in
      let (ended, _, kept) = retain_recent_lem port now peers past unique in
      (
        ground (arith, e, ended),
        (λ p. ground (
          arith,
          e,
          ended,
          (retain_recent_lem p now peers past unique).1,
          get-record_heartbeat port p now n.active_peers,
        )),
        ground (arith, e, ended, kept),
        ground (arith, e, ended),
      )
