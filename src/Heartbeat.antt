-- ===== src/Heartbeat.antt =====
-- src/modules/validation.rs, `handle_heartbeat`: the list of active peers. The clock is an argument.
pub mod Peers
mod Tests
use mini_block_chain.Prelude.{
  ℕ, zero, suc, ◌+◌, ◌-◌, ◌*◌, ◌/◌, ◌%◌, ◌^◌, ◌≤◌, ◌<◌, ◌≡◌, refl, sym, ap, ◌∙◌, ◌≢◌, ◌↔◌, ◌⊎◌, inl,
  inr, ite, if_pos, if_neg, Bool, true, false, ◌&&◌, ◌||◌, not, Option, none, some, List, [], ◌∷◌,
  ◌++◌, map, arith, dec_lt, dec_le, ℕ_discrete, ltb, leb, ◌==◌, if◌then◌else◌, Bool-cases,
  Option-cases, length, length-append, length-map, sum, sum-append, All, All-map, count, retain_ne,
  count-append, count-retain_ne, sum_of_count-eq, u64_mod, u32_mod, checked_add, checked_sub,
  sum_u64, in_u64, sum_u64_lem,
}
use mini_block_chain.Bytes.{Bytes, Text, bytes_discrete}
use mini_block_chain.HashMap.{get}
use mini_block_chain.External.{Json, Key}
use mini_block_chain.Node.{ValidatorNode, Outcome, done, panicked, waiting, Action}

-- `HEARTBEAT_TIMEOUT` of src/modules/constants.rs, in seconds.
abbrev pub heartbeat_timeout : ℕ
heartbeat_timeout = 10

abbrev pub Peers : Type 0
Peers = List (Text × ℕ)

-- `iter().any(|peer| peer.0 == port_address)`
unfoldable pub is_listed : Text → Peers → Bool
is_listed port [] = false
is_listed port ((p, t) ∷ ps) = ite (bytes_discrete p port) true (is_listed port ps)

-- The loop that sets the time of every entry of the peer.
unfoldable pub touch : Text → ℕ → Peers → Peers
touch port now [] = []
touch port now ((p, t) ∷ ps) = ite (bytes_discrete p port) (p, now) (p, t) ∷ touch port now ps

-- `retain(|peer| current_time - peer.1 < HEARTBEAT_TIMEOUT)`: whether the subtraction panics, and
-- the list then. What `retain` has not reached when it panics stays.
unfoldable pub retain_recent : ℕ → Peers → Bool × Peers
retain_recent now [] = (false, [])
retain_recent now ((p, t) ∷ ps) =
    let rest = retain_recent now ps in
    elim (ltb now t) [
      | true ↦ (true, (p, t) ∷ ps)
      | false ↦ (rest.0, if ltb (now - t) heartbeat_timeout then (p, t) ∷ rest.1 else rest.1)
    ]

unfoldable pub record_heartbeat : Text → ℕ → Peers → Peers
record_heartbeat port now peers =
    if is_listed port peers then touch port now peers else peers ++ (port, now) ∷ []

pub data Reply : Type 0 where
  handled no_port : Reply

module _ {Value : Type 0} (x : Json Value) where
  unfoldable pub handle_heartbeat : Value → ℕ → Action Reply
  handle_heartbeat r now n = elim (x.as_str (x.index r Key.port_address)) [
    | none ↦ (done Reply.no_port, n)
    | some port ↦
        let (failed, peers) = retain_recent now (record_heartbeat port now n.active_peers) in
        let n' : ValidatorNode = record n { active_peers = peers } in
        elim failed [ true ↦ (panicked, n') | false ↦ (done Reply.handled, n') ]
  ]
