-- ===== src/Chain/Export.antt =====
-- src/modules/blockchain.rs: `BlockJson` and the conversion of a chain for the JSON file. Hex is a
-- parameter. `String::from_utf8` is written out: it accepts exactly the well-formed UTF-8.
use mini_block_chain.Prelude.{
  ℕ, ◌≡◌, inl, inr, Bool, true, false, ◌&&◌, Option, none, some, List, [], ◌∷◌, map, arith, ltb,
  leb, ◌==◌, if◌then◌else◌, Option-cases,
}
use mini_block_chain.Bytes.{Bytes, Text}
use mini_block_chain.Utxo.{UtxoTransaction, CoinbaseTransaction}
use mini_block_chain.Chain.{Block}

pub data BlockJson : Type 0 where
  genesis : (time : ℕ) → BlockJson
  transaction :
      (sender : Text) (sender_balance : ℕ) (recipient : Text) (recipient_balance : ℕ) (amount : ℕ)
      (time : ℕ) (sender_nonce : ℕ) (hash : Text)
      → BlockJson
  new_account : (address : Text) (account_balance : ℕ) (time : ℕ) (hash : Text) → BlockJson
  faucet : (address : Text) (account_balance : ℕ) (time : ℕ) (hash : Text) → BlockJson
  utxo_transaction : (tx : UtxoTransaction) (block_height : ℕ) (hash : Text) → BlockJson
  coinbase : (tx : CoinbaseTransaction) (hash : Text) → BlockJson

abbrev within : ℕ → ℕ → ℕ → Bool
within lo hi b = leb lo b && leb b hi

abbrev tail_byte : ℕ × ℕ
tail_byte = (0x80, 0xBF)

-- The ranges in which the bytes after a first byte must lie; `none` if no character begins so.
unfoldable pub utf8_first : ℕ → Option (List (ℕ × ℕ))
utf8_first b =
    if ltb b 0x80
    then some []
    else if within 0xC2 0xDF b
    then some (tail_byte ∷ [])
    else if b == 0xE0
    then some ((0xA0, 0xBF) ∷ tail_byte ∷ [])
    else if b == 0xED
    then some ((0x80, 0x9F) ∷ tail_byte ∷ [])
    else if within 0xE1 0xEF b
    then some (tail_byte ∷ tail_byte ∷ [])
    else if b == 0xF0
    then some ((0x90, 0xBF) ∷ tail_byte ∷ tail_byte ∷ [])
    else if within 0xF1 0xF3 b
    then some (tail_byte ∷ tail_byte ∷ tail_byte ∷ [])
    else if b == 0xF4
    then some ((0x80, 0x8F) ∷ tail_byte ∷ tail_byte ∷ [])
    else none

unfoldable pub utf8_step : List (ℕ × ℕ) → ℕ → Option (List (ℕ × ℕ))
utf8_step [] b = utf8_first b
utf8_step ((lo, hi) ∷ rest) b = if within lo hi b then some rest else none

unfoldable pub is_utf8_from : List (ℕ × ℕ) → Bytes → Bool
is_utf8_from [] [] = true
is_utf8_from (r ∷ rs) [] = false
is_utf8_from expected (b ∷ bs) = elim (utf8_step expected b) [
  | none ↦ false
  | some expected' ↦ is_utf8_from expected' bs
]

unfoldable pub from_utf8 : Bytes → Option Text
from_utf8 bs = if is_utf8_from [] bs then some bs else none

module _ (hex_encode : Bytes → Text) where
  -- `none` is the panic of `from_utf8(…).unwrap()`.
  unfoldable pub convert_block_to_blockjson : Block → Option BlockJson
  convert_block_to_blockjson (Block.genesis time) = some (BlockJson.genesis time)
  convert_block_to_blockjson (Block.transaction s sb r rb amount time nonce hash) =
      elim (from_utf8 s) [
        | none ↦ none
        | some sender ↦ elim (from_utf8 r) [
          | none ↦ none
          | some recipient ↦
              some
                (BlockJson.transaction sender sb recipient rb amount time nonce (hex_encode hash))
        ]
      ]
  convert_block_to_blockjson (Block.new_account a b time hash) = elim (from_utf8 a) [
    | none ↦ none
    | some address ↦ some (BlockJson.new_account address b time (hex_encode hash))
  ]
  convert_block_to_blockjson (Block.faucet a b time hash) = elim (from_utf8 a) [
    | none ↦ none
    | some address ↦ some (BlockJson.faucet address b time (hex_encode hash))
  ]
  convert_block_to_blockjson (Block.utxo_transaction tx height hash) =
      some (BlockJson.utxo_transaction tx height (hex_encode hash))
  convert_block_to_blockjson (Block.coinbase tx hash) =
      some (BlockJson.coinbase tx (hex_encode hash))

  -- The loop that pushes one converted block after the other.
  unfoldable pub convert_vec_block_to_vec_blockjson : List Block → Option (List BlockJson)
  convert_vec_block_to_vec_blockjson [] = some []
  convert_vec_block_to_vec_blockjson (b ∷ bs) = elim (convert_block_to_blockjson b) [
    | none ↦ none
    | some j ↦ elim (convert_vec_block_to_vec_blockjson bs) [
      | none ↦ none
      | some js ↦ some (j ∷ js)
    ]
  ]

module _ (hex_decode : Text → Option Bytes) where
  abbrev from_hex : Text → Bytes
  from_hex t = elim (hex_decode t) [ none ↦ [] | some bs ↦ bs ]

  -- Reads an exported block back.
  abbrev pub read_block : BlockJson → Block
  read_block (BlockJson.genesis time) = Block.genesis time
  read_block (BlockJson.transaction s sb r rb amount time nonce hash) =
      Block.transaction s sb r rb amount time nonce (from_hex hash)
  read_block (BlockJson.new_account a b time hash) = Block.new_account a b time (from_hex hash)
  read_block (BlockJson.faucet a b time hash) = Block.faucet a b time (from_hex hash)
  read_block (BlockJson.utxo_transaction tx height hash) =
      Block.utxo_transaction tx height (from_hex hash)
  read_block (BlockJson.coinbase tx hash) = Block.coinbase tx (from_hex hash)

  module _ (hex_encode : Bytes → Text)
      (decodes : (b : Bytes) → hex_decode (hex_encode b) ≡ some b) where
    read-convert_block :
        (b : Block) (j : BlockJson)
        → convert_block_to_blockjson hex_encode b ≡ some j
        → read_block j ≡ b
    unfolding convert_block_to_blockjson from_utf8
    read-convert_block (Block.genesis time) j e = ground (arith, e)
    read-convert_block (Block.transaction s sb r rb amount time nonce hash) j e =
        ground (arith, e, decodes hash)
    read-convert_block (Block.new_account a b time hash) j e = ground (arith, e, decodes hash)
    read-convert_block (Block.faucet a b time hash) j e = ground (arith, e, decodes hash)
    read-convert_block (Block.utxo_transaction tx height hash) j e = ground (arith, e, decodes hash)
    read-convert_block (Block.coinbase tx hash) j e = ground (arith, e, decodes hash)

    -- If hex text decodes to what it encodes, a chain that is exported without a panic can be read
    -- back block by block: nothing is lost and the order is kept.
    pub read-convert_vec_block :
        (bs : List Block) (js : List BlockJson)
        → convert_vec_block_to_vec_blockjson hex_encode bs ≡ some js
        → map read_block js ≡ bs
    unfolding convert_vec_block_to_vec_blockjson
    read-convert_vec_block [] js e = ground (arith, e)
    read-convert_vec_block (b ∷ bs) js e =
        elim (Option-cases (convert_block_to_blockjson hex_encode b)) [
          | inl p ↦ absurd (ground (arith, p))
          | inr (j, p) ↦ elim (Option-cases (convert_vec_block_to_vec_blockjson hex_encode bs)) [
            | inl q ↦ absurd (ground (arith, p, q))
            | inr (ks, q) ↦
                ground (arith, p, q, read-convert_block b j p, read-convert_vec_block bs ks q)
          ]
        ]
