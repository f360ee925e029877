-- ===== src/System/Invariant.antt =====
-- src/modules/validation.rs and src/modules/network.rs: a node in good order, under any interleaving of
-- its handlers.
use mini_block_chain.Prelude.{
  ℕ, ◌≡◌, refl, Bool, true, false, Option, none, some, List, [], ◌∷◌, ◌++◌, arith, All,
}
use mini_block_chain.Bytes.{Bytes, Text, bytes_discrete}
use mini_block_chain.HashMap.{get, IsUnique}
use mini_block_chain.HashMap.Laws.{get-insert, insert-IsUnique}
use mini_block_chain.External.{Json, Crypto}
use mini_block_chain.Utxo.Index.{IsIndexed}
use mini_block_chain.Utxo.Supply.{apply_transaction-IsIndexed}
use mini_block_chain.Utxo.Balance.{rebuild_index-IsIndexed}
use mini_block_chain.Merkle.{
  Account, MerkleTree, find_account, insert_account, change_balance, increment_nonce,
  account_exists, set_balance,
}
use mini_block_chain.Merkle.Accounts.{
  increment_nonce_balances, balance_of, find-append, find-update,
}
use mini_block_chain.Chain.{
  Block, BlockChain, set_block_hash, push_block_to_chain, store_then_push, store_incoming_requests,
}
use mini_block_chain.Chain.Push.{All-append, set_block_hash-IsHashed, IsHashed, new-IsHashed}
use mini_block_chain.Node.{set_tree, set_chain, PeerLedgerResponse, ValidatorNode, new}
use mini_block_chain.Heartbeat.{Peers, retain_recent, record_heartbeat}
use mini_block_chain.Heartbeat.Peers.{record_heartbeat-IsUnique}
use mini_block_chain.Utxo.Set
use mini_block_chain.System.{System, Reach}
use mini_block_chain.System.Stable.{IsStable}
use mini_block_chain.System.Runs.{Reach_keeps}

abbrev found : Option Account → Bool
found none = false
found (some a) = true

-- The map and the vector of the accounts have the same keys.
abbrev pub IsMatched : MerkleTree → Type 0
IsMatched t = (k : Bytes) → account_exists k t ≡ found (find_account k t.accounts_vec)

-- What holds of the node between any two stages.
pub record WellFormed (c : Crypto) (n : ValidatorNode) : Type 0 where
  pub indexed : IsIndexed n.utxo_set
  pub hashed : All (IsHashed c.sha256) n.blockchain.chain
  pub matched : IsMatched n.merkle_tree
  pub accounts_unique : IsUnique bytes_discrete n.merkle_tree.accounts_map
  pub peers_unique : IsUnique bytes_discrete n.active_peers

insert_account-IsMatched :
    (a : Account) (t : MerkleTree) → IsMatched t → IsMatched (insert_account a t)
unfolding insert_account account_exists
insert_account-IsMatched a t h k = ground (
  arith,
  h k,
  get-insert bytes_discrete a.public_key k a.balance t.accounts_map,
  find-append k t.accounts_vec a,
)

change_balance-IsMatched :
    (k : Bytes) (b : ℕ) (t : MerkleTree) → IsMatched t → IsMatched (change_balance k b t)
unfolding change_balance account_exists
change_balance-IsMatched k b t h j = ground (
  arith,
  h j,
  h k,
  get-insert bytes_discrete k j b t.accounts_map,
  find-update k j (set_balance b) t.accounts_vec (λ a. refl),
)

found_balances : (a b : Option Account) → balance_of a ≡ balance_of b → found a ≡ found b
found_balances none none h = refl
found_balances none (some b) h = cc
found_balances (some a) none h = cc
found_balances (some a) (some b) h = refl

increment_nonce-IsMatched :
    (k : Bytes) (t t' : MerkleTree) → increment_nonce k t ≡ some t' → IsMatched t → IsMatched t'
unfolding account_exists
increment_nonce-IsMatched k t t' e h j =
    let (same, balances) = increment_nonce_balances k j t t' e in
    ground (
      arith,
      same,
      h j,
      found_balances (find_account j t'.accounts_vec) (find_account j t.accounts_vec) balances,
    )

retain_absent :
    (p : Text) (now : ℕ) (ps : Peers)
    → get bytes_discrete p ps ≡ none
    → get bytes_discrete p (retain_recent now ps).1 ≡ none
unfolding get retain_recent
retain_absent p now [] h = refl
retain_absent p now ((q, t) ∷ ps) h = ground (arith, h, retain_absent p now ps)

change_balance-IsUnique :
    (k : Bytes) (b : ℕ) (t : MerkleTree)
    → IsUnique bytes_discrete t.accounts_map
    → IsUnique bytes_discrete (change_balance k b t).accounts_map
unfolding change_balance
change_balance-IsUnique k b t u = grind (arith, u, insert-IsUnique)

retain_recent-IsUnique :
    (now : ℕ) (ps : Peers)
    → IsUnique bytes_discrete ps
    → IsUnique bytes_discrete (retain_recent now ps).1
unfolding get retain_recent
retain_recent-IsUnique now [] u = tt
retain_recent-IsUnique now ((q, t) ∷ ps) u =
    ground (arith, u.0, retain_absent q now ps u.0, retain_recent-IsUnique now ps u.1)

pub stored_chain :
    (sha256 : Bytes → Bytes) (b : Block) (c c' : BlockChain)
    → store_then_push sha256 b c ≡ some c'
    → (c'.chain ≡ c.chain ++ set_block_hash sha256 b ∷ [])
unfolding store_then_push store_incoming_requests push_block_to_chain
stored_chain sha256 b c c' e = ground (arith, e)

pub pushed_chain :
    (sha256 : Bytes → Bytes) (b : Block) (c c' : BlockChain)
    → push_block_to_chain sha256 b c ≡ some c'
    → (c'.chain ≡ c.chain ++ set_block_hash sha256 b ∷ [])
unfolding push_block_to_chain
pushed_chain sha256 b c c' e = ground (arith, e)

module _ (c : Crypto) where
  appended-IsHashed :
      (b : Block) (chain chain' : List Block)
      → chain' ≡ chain ++ set_block_hash c.sha256 b ∷ []
      → All (IsHashed c.sha256) chain
      → All (IsHashed c.sha256) chain'
  appended-IsHashed b chain chain' e h =
      rw e (
        All-append c.sha256 chain (set_block_hash c.sha256 b) h
          (set_block_hash-IsHashed c.sha256 b))

  with_tree :
      (t : MerkleTree) (n : ValidatorNode)
      → WellFormed c n
      → IsMatched t
      → IsUnique bytes_discrete t.accounts_map
      → WellFormed c (set_tree t n)
  with_tree t n w m u = record {
    indexed = w.indexed;
    hashed = w.hashed;
    matched = m;
    accounts_unique = u;
    peers_unique = w.peers_unique;
  }

  with_chain :
      (chain : BlockChain) (n : ValidatorNode)
      → WellFormed c n
      → All (IsHashed c.sha256) chain.chain
      → WellFormed c (set_chain chain n)
  with_chain chain n w h = record {
    indexed = w.indexed;
    hashed = h;
    matched = w.matched;
    accounts_unique = w.accounts_unique;
    peers_unique = w.peers_unique;
  }

  -- Where what the record speaks of is left alone.
  same_parts :
      (n n' : ValidatorNode)
      → n'.utxo_set ≡ n.utxo_set
      → n'.blockchain ≡ n.blockchain
      → n'.merkle_tree ≡ n.merkle_tree
      → n'.active_peers ≡ n.active_peers
      → WellFormed c n
      → WellFormed c n'
  same_parts n n' e f g i w = record {
    indexed = rw e w.indexed;
    hashed = rw f w.hashed;
    matched = rw g w.matched;
    accounts_unique = rw g w.accounts_unique;
    peers_unique = rw i w.peers_unique;
  }

  WellFormed-IsStable : IsStable c (WellFormed c)
  unfolding insert_account change_balance
  WellFormed-IsStable = record {
    inserts = λ a n w.
        with_tree (insert_account a n.merkle_tree) n w
          (insert_account-IsMatched a n.merkle_tree w.matched)
          (insert-IsUnique bytes_discrete a.public_key a.balance n.merkle_tree.accounts_map
            w.accounts_unique);
    changes = λ k b n w.
        with_tree (change_balance k b n.merkle_tree) n w
          (change_balance-IsMatched k b n.merkle_tree w.matched)
          (change_balance-IsUnique k b n.merkle_tree w.accounts_unique);
    counts = λ k t n e w.
        with_tree t n w (increment_nonce-IsMatched k n.merkle_tree t e w.matched)
          (rw (increment_nonce_balances k k n.merkle_tree t e).0 w.accounts_unique);
    stores = λ b chain n e w. with_chain chain n w (
        appended-IsHashed b n.blockchain.chain chain.chain
          (stored_chain c.sha256 b n.blockchain chain e) w.hashed);
    pushes = λ b chain n e w. with_chain chain n w (
        appended-IsHashed b n.blockchain.chain chain.chain
          (pushed_chain c.sha256 b n.blockchain chain e) w.hashed);
    spends = λ tx height n w. record {
      indexed = apply_transaction-IsIndexed tx height n.utxo_set w.indexed;
      hashed = w.hashed;
      matched = w.matched;
      accounts_unique = w.accounts_unique;
      peers_unique = w.peers_unique;
    };
    signs = λ s sd r a k n w. same_parts n _ refl refl refl refl w;
    decides = λ d n w. same_parts n _ refl refl refl refl w;
    votes = λ d n w. same_parts n _ refl refl refl refl w;
    totals = λ k n w. same_parts n _ refl refl refl refl w;
    learns = λ ss n w. same_parts n _ refl refl refl refl w;
    hears = λ port now n w. record {
      indexed = w.indexed;
      hashed = w.hashed;
      matched = w.matched;
      accounts_unique = w.accounts_unique;
      peers_unique =
          retain_recent-IsUnique now (record_heartbeat port now n.active_peers)
            (record_heartbeat-IsUnique port now n.active_peers w.peers_unique);
    };
  }

  -- A node that `ValidatorNode::new` makes.
  pub new-WellFormed : (time : ℕ) → WellFormed c (new time)
  unfolding new find_account account_exists get
  new-WellFormed time = record {
    indexed = rebuild_index-IsIndexed Set.new tt;
    hashed = new-IsHashed c.sha256 time;
    matched = λ k. refl;
    accounts_unique = tt;
    peers_unique = tt;
  }

  module _ {Value : Type 0} (x : Json Value) (parse : Value → Option PeerLedgerResponse) where
    -- From a node in good order, whatever messages arrive and however the stages of their handlers
    -- interleave, on every path and at every panic, the node stays in good order: the index and
    -- the count of the outputs are exact, every block carries its own hash, the two stores of the
    -- accounts have the same keys, and no account of the map and no active peer occurs twice.
    pub Reach-WellFormed :
        {s t : System Value} → Reach x c parse s t → WellFormed c s.node → WellFormed c t.node
    Reach-WellFormed w h = Reach_keeps x c (WellFormed c) WellFormed-IsStable parse w h
