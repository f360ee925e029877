-- ===== src/Chain/Tests.antt =====
-- Examples of the chain: a faucet block on a new chain, and its export.
use mini_block_chain.Prelude.{
  ◌≡◌, refl, ◌≢◌, ite, Option, some, List, [], ◌∷◌, ◌++◌, map, dec_lt, dec_le, All, true, ◌⊎◌,
}
use mini_block_chain.Bytes.{Bytes, Text, bytes_discrete}
use mini_block_chain.HashMap
use mini_block_chain.Chain.{
  Block, BlockChain, new, request_address, store_then_push, push_block_to_chain, pushed,
  set_block_hash, pop_front,
}
use mini_block_chain.Chain.Push.{IsHashed, new-IsHashed}
use mini_block_chain.Chain.Pending.{AllUnhashed, requests_of, stored_request_stays}
use mini_block_chain.Chain.Printing.{print_chain, is_none, number_of, numbers, print_chain_lem}
use mini_block_chain.Chain.Export.{
  BlockJson, convert_vec_block_to_vec_blockjson, convert_block_to_blockjson, read_block,
  read-convert_vec_block, from_utf8, is_utf8_from, utf8_first, utf8_step,
}

abbrev sha256 : Bytes → Bytes
sha256 x = 0xAB ∷ []

sha256_nonempty : (x : Bytes) → sha256 x ≢ []
sha256_nonempty x e = cc e

abbrev grant : Block
grant = Block.faucet (0x61 ∷ []) 130 17 []

abbrev started : BlockChain
started = new 3

started-IsHashed : All (IsHashed sha256) started.chain
started-IsHashed = new-IsHashed sha256 3

grant-pushed :
    push_block_to_chain sha256 grant started ≡ some (pushed sha256 grant (0x61 ∷ []) started)
unfolding push_block_to_chain request_address
grant-pushed = refl

grant_address : request_address grant ≡ some (0x61 ∷ [])
unfolding request_address
grant_address = refl

nothing_waits : AllUnhashed started.joint_request_map
unfolding new HashMap.get
nothing_waits a = tt

stored_request_stays_example :
    (c' : BlockChain) × (store_then_push sha256 grant started ≡ some c')
    × (c'.chain ≡ started.chain ++ set_block_hash sha256 grant ∷ [])
    × (c'.pending_request_queue ≡ pop_front (started.pending_request_queue ++ (0x61 ∷ []) ∷ []))
    × ((a : Bytes)
        → requests_of a c'.joint_request_map
          ≡ ite
              (bytes_discrete (0x61 ∷ []) a)
              (requests_of (0x61 ∷ []) started.joint_request_map ++ grant ∷ [])
              (requests_of a started.joint_request_map))
    × AllUnhashed c'.joint_request_map
stored_request_stays_example =
    stored_request_stays sha256 sha256_nonempty grant started (0x61 ∷ []) grant_address refl
      nothing_waits

-- Hex is left out here: the text of a hash is the hash.
abbrev plain : Bytes → Text
plain b = b

abbrev read_plain : Text → Option Bytes
read_plain t = some t

abbrev ledger : List Block
ledger = Block.genesis 3 ∷ Block.faucet (0x61 ∷ []) 130 17 (0xAB ∷ []) ∷ []

abbrev exported : List BlockJson
exported = BlockJson.genesis 3 ∷ BlockJson.faucet (0x61 ∷ []) 130 17 (0xAB ∷ []) ∷ []

ledger-exported : convert_vec_block_to_vec_blockjson plain ledger ≡ some exported
unfolding convert_vec_block_to_vec_blockjson convert_block_to_blockjson from_utf8 is_utf8_from
    utf8_first utf8_step dec_lt dec_le
ledger-exported = refl

read-convert_vec_block_example : map (read_block read_plain) exported ≡ ledger
read-convert_vec_block_example =
    read-convert_vec_block read_plain plain (λ b. refl) ledger exported ledger-exported

print_chain_lem_example :
    ((print_chain plain ledger).1 ≡ is_none (convert_vec_block_to_vec_blockjson plain ledger))
    × ((print_chain plain ledger).1 ≡ true
        ⊎ (map number_of (print_chain plain ledger).0 ≡ numbers 0 ledger))
print_chain_lem_example = print_chain_lem plain ledger
