-- ===== src/Chain/Printing.antt =====
-- src/modules/blockchain.rs: what `print_chain` prints and `save_chain_json` writes.
use mini_block_chain.Prelude.{
  ℕ, suc, ◌≡◌, refl, ◌⊎◌, inl, inr, Bool, true, false, ◌&&◌, Option, none, some, List, [], ◌∷◌,
  ◌++◌, map, arith, if◌then◌else◌, Bool-cases, Option-cases, length,
}
use mini_block_chain.Bytes.{Bytes, Text, codes}
use mini_block_chain.Chain.{Block}
use mini_block_chain.Chain.Export.{
  BlockJson, from_utf8, convert_block_to_blockjson, convert_vec_block_to_vec_blockjson,
}
use mini_block_chain.Node.{ValidatorNode}

-- The values that are printed of a block, in their order, after the number of the block; the words
-- around them are left out.
pub data Line : Type 0 where
  genesis : (i time : ℕ) → Line
  transaction :
      (i : ℕ) (sender : Text) (sender_balance sender_nonce : ℕ) (recipient : Text)
      (recipient_balance amount time : ℕ) (hash : Text)
      → Line
  new_account : (i : ℕ) (address : Text) (account_balance time : ℕ) (hash : Text) → Line
  faucet : (i : ℕ) (address : Text) (account_balance time : ℕ) (hash : Text) → Line
  utxo_transaction : (i inputs outputs timestamp block_height : ℕ) (hash : Text) → Line
  coinbase : (i outputs block_height timestamp : ℕ) (hash : Text) → Line

-- The number of the block that a line is about.
abbrev pub number_of : Line → ℕ
number_of (Line.genesis i time) = i
number_of (Line.transaction i s sb nonce r rb amount time hash) = i
number_of (Line.new_account i a b time hash) = i
number_of (Line.faucet i a b time hash) = i
number_of (Line.utxo_transaction i is os timestamp height hash) = i
number_of (Line.coinbase i os height timestamp hash) = i

-- `start`, `start + 1` and so on, as many as the blocks.
unfoldable pub numbers : ℕ → List Block → List ℕ
numbers start [] = []
numbers start (b ∷ bs) = start ∷ numbers (suc start) bs

abbrev pub is_none : {A : Type 0} → Option A → Bool
is_none none = true
is_none (some a) = false

module _ (hex_encode : Bytes → Text) where
  -- `none` is the panic of `from_utf8(…).unwrap()`.
  unfoldable pub print_block : ℕ → Block → Option Line
  print_block i (Block.genesis time) = some (Line.genesis i time)
  print_block i (Block.transaction s sb r rb amount time nonce hash) = elim (from_utf8 s) [
    | none ↦ none
    | some sender ↦ elim (from_utf8 r) [
      | none ↦ none
      | some recipient ↦
          some (Line.transaction i sender sb nonce recipient rb amount time (hex_encode hash))
    ]
  ]
  print_block i (Block.new_account a b time hash) = elim (from_utf8 a) [
    | none ↦ none
    | some address ↦ some (Line.new_account i address b time (hex_encode hash))
  ]
  print_block i (Block.faucet a b time hash) = elim (from_utf8 a) [
    | none ↦ none
    | some address ↦ some (Line.faucet i address b time (hex_encode hash))
  ]
  print_block i (Block.utxo_transaction tx height hash) = some (
      Line.utxo_transaction i (length tx.inputs) (length tx.outputs) tx.timestamp height
        (hex_encode hash))
  print_block i (Block.coinbase tx hash) =
      some (Line.coinbase i (length tx.outputs) tx.block_height tx.timestamp (hex_encode hash))

  -- The loop: what it has printed at its end, and whether that is a panic.
  unfoldable pub print_chain_from : ℕ → List Block → List Line × Bool
  print_chain_from i [] = ([], false)
  print_chain_from i (b ∷ bs) =
      let rest = print_chain_from (suc i) bs in
      elim (print_block i b) [ none ↦ ([], true) | some line ↦ (line ∷ rest.0, rest.1) ]

  unfoldable pub print_chain : List Block → List Line × Bool
  print_chain bs = print_chain_from 0 bs

  print_block_lem :
      (i : ℕ) (b : Block)
      → (is_none (print_block i b) ≡ is_none (convert_block_to_blockjson hex_encode b))
        × ((line : Line) → print_block i b ≡ some line → number_of line ≡ i)
  unfolding print_block convert_block_to_blockjson
  print_block_lem i (Block.genesis time) = (refl, λ line e. ground (arith, e))
  print_block_lem i (Block.transaction s sb r rb amount time nonce hash) =
      (ground arith, λ line e. ground (arith, e))
  print_block_lem i (Block.new_account a b time hash) = (ground arith, λ line e. ground (arith, e))
  print_block_lem i (Block.faucet a b time hash) = (ground arith, λ line e. ground (arith, e))
  print_block_lem i (Block.utxo_transaction tx height hash) = (refl, λ line e. ground (arith, e))
  print_block_lem i (Block.coinbase tx hash) = (refl, λ line e. ground (arith, e))

  print_chain_from_lem :
      (i : ℕ) (bs : List Block)
      → ((print_chain_from i bs).1 ≡ is_none (convert_vec_block_to_vec_blockjson hex_encode bs))
        × ((print_chain_from i bs).1 ≡ false
            → map number_of (print_chain_from i bs).0 ≡ numbers i bs)
  unfolding print_chain_from convert_vec_block_to_vec_blockjson numbers
  print_chain_from_lem i [] = (refl, λ h. refl)
  print_chain_from_lem i (b ∷ bs) =
      let (same, prints) = print_chain_from_lem (suc i) bs in
      let (same_block, numbered) = print_block_lem i b in
      (
        ground (arith, same, same_block),
        λ h. elim (Option-cases (print_block i b)) [
          | inl e ↦ absurd (ground (arith, e, h))
          | inr (line, e) ↦ ground (arith, e, h, numbered line e, prints)
        ],
      )

  -- Printing a chain panics exactly where its conversion for the file panics; and if it does not,
  -- it prints one line for each block, in order, numbered from 0.
  pub print_chain_lem :
      (bs : List Block)
      → ((print_chain bs).1 ≡ is_none (convert_vec_block_to_vec_blockjson hex_encode bs))
        × ((print_chain bs).1 ≡ true ⊎ (map number_of (print_chain bs).0 ≡ numbers 0 bs))
  unfolding print_chain
  print_chain_lem bs =
      let (same, prints) = print_chain_from_lem 0 bs in
      (same, elim (Bool-cases (print_chain_from 0 bs).1) [ inl e ↦ inl e | inr e ↦ inr (prints e) ])

-- A file that is written: the directory that is made for it, its path and its blocks.
pub record ChainFile : Type 0 where
  pub dir : Text
  pub path : Text
  pub blocks : List BlockJson

-- `save_chain_json` after `print_chain`, as `master_events_handler` calls them; `none` is the panic
-- on an address that is not UTF-8, or where the file system, which is a parameter, refuses.
module _ (hex_encode : Bytes → Text) (creates : Text → Bool) where
  unfoldable pub save_chain_json : ValidatorNode → Option ChainFile
  save_chain_json n = elim (convert_vec_block_to_vec_blockjson hex_encode n.blockchain.chain) [
    | none ↦ none
    | some blocks ↦
        let dir : Text = codes "Node_" ++ n.client_port_address in
        let path : Text = dir ++ codes "/blockchain.json" in
        if creates dir && creates path
        then some (record { dir = dir; path = path; blocks = blocks })
        else none
  ]
