-- ===== src/Ledger.antt =====
-- src/modules/validation.rs: how a request becomes a block. `Accounts` has account creation and
-- the faucet, `Transfer` the transaction between accounts, `Spend` the UTXO transaction; here is
-- what they share.
pub mod Accounts
pub mod Transfer
pub mod Spend
pub mod Balances
pub mod Payment
pub mod Verdict
pub mod Agreement
pub mod Minting
pub mod Round
pub mod Audit
pub mod Overdraft
pub mod Publication
pub mod Conflict
mod Tests
use mini_block_chain.Prelude.{
  ℕ, zero, suc, ◌+◌, ◌-◌, ◌*◌, ◌/◌, ◌%◌, ◌^◌, ◌≤◌, ◌<◌, ◌≡◌, refl, sym, ap, ◌∙◌, ◌≢◌, ◌↔◌, ◌⊎◌, inl,
  inr, ite, if_pos, if_neg, Bool, true, false, ◌&&◌, ◌||◌, not, Option, none, some, List, [], ◌∷◌,
  ◌++◌, map, arith, dec_lt, dec_le, ℕ_discrete, ltb, leb, ◌==◌, if◌then◌else◌, Bool-cases,
  Option-cases, length, length-append, length-map, sum, sum-append, All, All-map, count, retain_ne,
  count-append, count-retain_ne, sum_of_count-eq, u64_mod, u32_mod, checked_add, checked_sub,
  sum_u64, in_u64, sum_u64_lem,
}
use mini_block_chain.Bytes.{Bytes, Text, bytes_discrete}
use mini_block_chain.HashMap.{HashMap, insert}
use mini_block_chain.External.{Json, Key, Crypto}
use mini_block_chain.Node.{
  ValidatorNode, Outcome, done, panicked, waiting, Action, Env, pure, unwrap, ◌>>=◌, ◌>>◌, update,
  update_active_peer_count,
}
use mini_block_chain.Node.Request.{hash_network_request}
use mini_block_chain.Consensus.{await_all_block_decisions, determine_majority}

-- `FAUCET_AMOUNT` of src/modules/constants.rs.
abbrev pub faucet_amount : ℕ
faucet_amount = 100

-- What other tasks do at each point at which a handler waits or holds no lock.
pub record Schedule : Type 0 where
  pub verified : Env
  pub counted : Env
  pub waits : List Env
  pub resumed : Env
  pub decided : Env
  pub height_read : Env
  pub spent : Env

abbrev pub undisturbed : List Env → Schedule
undisturbed waits = record {
  verified = λ n. n;
  counted = λ n. n;
  waits = waits;
  resumed = λ n. n;
  decided = λ n. n;
  height_read = λ n. n;
  spent = λ n. n;
}

module _ {Value : Type 0} (x : Json Value) (c : Crypto) where
  -- Stores the node's own decision about a request.
  abbrev pub store_decision : Value → Bool → Env
  store_decision r decision n = record n {
    client_decisions =
        insert bytes_discrete (hash_network_request x c.sha256 r) decision n.client_decisions;
  }

  -- The middle of every handler: count the peers, ask them (the sending changes no state), wait
  -- for their answers, and determine the majority.
  unfoldable pub consult : Value → Schedule → Action Bool
  consult r s = do
    update s.verified
    update update_active_peer_count
    update s.counted
    await_all_block_decisions (hash_network_request x c.sha256 r) s.waits
    update s.resumed
    agreed ← determine_majority x c.sha256 r
    update s.decided
    pure agreed
