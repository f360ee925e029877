-- ===== src/System/History.antt =====
-- src/modules/validation.rs and src/modules/network.rs: what a node never takes back, under any
-- interleaving of its handlers.
use mini_block_chain.Prelude.{
  ◌+◌, ◌≤◌, ◌≡◌, refl, sym, ap, ◌∙◌, inl, inr, true, Option, some, List, [], ◌∷◌, ◌++◌, arith,
  Option-cases, checked_add,
}
use mathlib.Core.List.{append_assoc, append-nil}
use mini_block_chain.Bytes.{Bytes, Text, bytes_discrete}
use mini_block_chain.External.{Json, Crypto}
use mini_block_chain.Merkle.{
  Account, MerkleTree, find_account, update_account, insert_account, change_balance,
  increment_nonce, set_balance, set_nonce,
}
use mini_block_chain.Merkle.Accounts.{find-append, find-update}
use mini_block_chain.Chain.{Block, set_block_hash}
use mini_block_chain.Signature.{is_used, used_by}
use mini_block_chain.Signature.Replay.{verify_transaction_signature_lem}
use mini_block_chain.Node.{PeerLedgerResponse, ValidatorNode}
use mini_block_chain.System.{System, Reach}
use mini_block_chain.System.Stable.{IsStable}
use mini_block_chain.System.Runs.{Reach_keeps}
use mini_block_chain.System.Invariant.{stored_chain, pushed_chain}

-- What an account becomes: its key hash stays, and its nonce does not fall.
abbrev pub Grown : Account → Option Account → Type 0
Grown a o =
    (b : Account) × (o ≡ some b) × (b.public_key_hash ≡ a.public_key_hash) × (a.nonce ≤ b.nonce)

-- What the node that started keeps in a later one.
pub record Extends (c : Crypto) (m n : ValidatorNode) : Type 0 where
  pub blocks : (bs : List Block) × (n.blockchain.chain ≡ m.blockchain.chain ++ bs)
  pub accounts :
      (k : Bytes) (a : Account)
      → find_account k m.merkle_tree.accounts_vec ≡ some a
      → Grown a (find_account k n.merkle_tree.accounts_vec)
  pub signatures :
      (s t : Text)
      → is_used t (used_by c s m.used_zk_proofs) ≡ true
      → is_used t (used_by c s n.used_zk_proofs) ≡ true

Grown_append :
    (k : Bytes) (a b : Account) (xs : List Account)
    → Grown a (find_account k xs)
    → Grown a (find_account k (xs ++ b ∷ []))
Grown_append k a b xs (y, e, h, l) = (y, ground (arith, e, find-append k xs b), h, l)

-- A change to an account that leaves its key and its key hash, and does not lower its nonce.
Grown_update :
    (k j : Bytes) (a : Account) (f : Account → Account) (xs : List Account)
    → ((b : Account) → (f b).public_key ≡ b.public_key)
    → ((b : Account) → (f b).public_key_hash ≡ b.public_key_hash)
    → ((b : Account) → find_account k xs ≡ some b → b.nonce ≤ (f b).nonce)
    → Grown a (find_account j xs)
    → Grown a (find_account j (update_account k f xs))
Grown_update k j a f xs hk hh hn (b, e, h, l) = elim (bytes_discrete k j) [
  | yes p ↦
      let at_k : find_account k xs ≡ some b = rw p e in
      (f b, ground (arith, p, e, find-update k j f xs hk), hh b ∙ h, omega (arith, l, hn b at_k))
  | no d ↦ (b, ground (arith, d, e, find-update k j f xs hk), h, l)
]

Grown_refl : (a : Account) (o : Option Account) → o ≡ some a → Grown a o
Grown_refl a o e = (a, e, refl, omega arith)

Grown_increment :
    (k j : Bytes) (a : Account) (t t' : MerkleTree)
    → increment_nonce k t ≡ some t'
    → Grown a (find_account j t.accounts_vec)
    → Grown a (find_account j t'.accounts_vec)
unfolding increment_nonce checked_add
Grown_increment k j a t t' q g = elim (Option-cases (find_account k t.accounts_vec)) [
  | inl e ↦ let same : t'.accounts_vec ≡ t.accounts_vec = ground (arith, e, q) in rw same g
  | inr (b, e) ↦
      let changed : t'.accounts_vec ≡ update_account k (set_nonce (b.nonce + 1)) t.accounts_vec =
        ground (arith, e, q) in
      rw changed (
        Grown_update k j a (set_nonce (b.nonce + 1)) t.accounts_vec (λ y. refl) (λ y. refl)
          (λ y e'. ground (arith, e, e')) g)
]

module _ (c : Crypto) where
  blocks_after :
      (b : Block) (m : ValidatorNode) (chain chain' : List Block)
      → chain' ≡ chain ++ set_block_hash c.sha256 b ∷ []
      → (bs : List Block) × (chain ≡ m.blockchain.chain ++ bs)
      → (bs : List Block) × (chain' ≡ m.blockchain.chain ++ bs)
  blocks_after b m chain chain' e (bs, h) = (
    bs ++ set_block_hash c.sha256 b ∷ [],
    e
        ∙ ap (λ (l : List Block). l ++ set_block_hash c.sha256 b ∷ []) h
        ∙ append_assoc m.blockchain.chain bs (set_block_hash c.sha256 b ∷ []),
  )

  Extends-IsStable : (m : ValidatorNode) → IsStable c (Extends c m)
  unfolding insert_account change_balance
  Extends-IsStable m = record {
    inserts = λ a n h. record {
      blocks = h.blocks;
      signatures = h.signatures;
      accounts = λ k y e. Grown_append k y a n.merkle_tree.accounts_vec (h.accounts k y e);
    };
    changes = λ k b n h. record {
      blocks = h.blocks;
      signatures = h.signatures;
      accounts = λ j y e.
          Grown_update k j y (set_balance b) n.merkle_tree.accounts_vec (λ z. refl) (λ z. refl)
            (λ z _. omega arith) (h.accounts j y e);
    };
    counts = λ k t n e h. record {
      blocks = h.blocks;
      signatures = h.signatures;
      accounts = λ j y q. Grown_increment k j y n.merkle_tree t e (h.accounts j y q);
    };
    stores = λ b chain n e h. record {
      accounts = h.accounts;
      signatures = h.signatures;
      blocks =
          blocks_after b m n.blockchain.chain chain.chain
            (stored_chain c.sha256 b n.blockchain chain e) h.blocks;
    };
    pushes = λ b chain n e h. record {
      accounts = h.accounts;
      signatures = h.signatures;
      blocks =
          blocks_after b m n.blockchain.chain chain.chain
            (pushed_chain c.sha256 b n.blockchain chain e) h.blocks;
    };
    spends = λ tx height n h. record {
      blocks = h.blocks;
      accounts = h.accounts;
      signatures = h.signatures;
    };
    signs = λ sig sd r a k n h. record {
      blocks = h.blocks;
      accounts = h.accounts;
      signatures = λ s t u. ground (
        arith,
        h.signatures s t u,
        (verify_transaction_signature_lem c sig sd r a k n.used_zk_proofs).1 s t,
      );
    };
    decides =
        λ d n h. record { blocks = h.blocks; accounts = h.accounts; signatures = h.signatures };
    votes = λ d n h. record { blocks = h.blocks; accounts = h.accounts; signatures = h.signatures };
    totals =
        λ k n h. record { blocks = h.blocks; accounts = h.accounts; signatures = h.signatures };
    hears =
        λ p now n h. record { blocks = h.blocks; accounts = h.accounts; signatures = h.signatures };
    learns =
        λ ss n h. record { blocks = h.blocks; accounts = h.accounts; signatures = h.signatures };
  }

  Extends-refl : (n : ValidatorNode) → Extends c n n
  Extends-refl n = record {
    blocks = ([], sym (append-nil n.blockchain.chain));
    accounts = λ k a e. Grown_refl a (find_account k n.merkle_tree.accounts_vec) e;
    signatures = λ s t h. h;
  }

  module _ {Value : Type 0} (x : Json Value) (parse : Value → Option PeerLedgerResponse) where
    -- Whatever messages arrive and however the stages of their handlers interleave, on every path
    -- and at every panic: the chain only grows at its end, each account that a lookup in the
    -- vector finds is still found, with its key hash and a nonce that has not fallen, and each
    -- signature used by a sender stays used.
    pub Reach-Extends : {s t : System Value} → Reach x c parse s t → Extends c s.node t.node
    Reach-Extends {s} w =
        Reach_keeps x c (Extends c s.node) (Extends-IsStable s.node) parse w (Extends-refl s.node)
