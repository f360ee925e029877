-- ===== src/Utxo/Set.antt =====
-- src/modules/utxo.rs, `UTXOSet`: the unspent outputs, with an index by recipient and a count.
use mini_block_chain.Prelude.{
  ℕ, ◌+◌, ◌-◌, Bool, Option, none, some, List, [], ◌∷◌, ◌++◌, map, ◌==◌, length, sum_u64, retain_ne,
}
use mini_block_chain.Bytes.{Bytes, bytes_discrete}
use mini_block_chain.HashMap.{HashMap, get, contains_key, insert, remove, upsert, insert_sorted}
use mini_block_chain.Utxo.{OutPoint, out_point_discrete, out_point_lt, Utxo}

pub record UtxoSet : Type 0 where
  pub utxos : HashMap OutPoint Utxo
  pub recipient_index : HashMap Bytes (List OutPoint)
  pub count : ℕ

abbrev pub new : UtxoSet
new = record { utxos = []; recipient_index = []; count = 0 }

-- Drops an outpoint from a recipient's entry, and the entry with its last outpoint.
unfoldable pub unindex :
    OutPoint → Bytes → HashMap Bytes (List OutPoint) → HashMap Bytes (List OutPoint)
unindex outpoint recipient index = elim (get bytes_discrete recipient index) [
  | none ↦ index
  | some outpoints ↦ elim (retain_ne out_point_discrete outpoint outpoints) [
    | [] ↦ remove bytes_discrete recipient index
    | kept ∷ others ↦ insert bytes_discrete recipient (kept ∷ others) index
  ]
]

-- Adds an outpoint at the end of a recipient's entry.
unfoldable pub push_index :
    OutPoint → Bytes → HashMap Bytes (List OutPoint) → HashMap Bytes (List OutPoint)
push_index outpoint recipient =
    upsert bytes_discrete recipient [] (λ outpoints. outpoints ++ outpoint ∷ [])

unfoldable pub add_utxo : OutPoint → Utxo → UtxoSet → UtxoSet
add_utxo outpoint utxo s = elim (get out_point_discrete outpoint s.utxos) [
  | some old ↦ record {
    utxos = stored;
    recipient_index =
        push_index outpoint utxo.recipient (unindex outpoint old.recipient s.recipient_index);
    count = s.count;
  }
  | none ↦ record {
    utxos = stored;
    recipient_index = push_index outpoint utxo.recipient s.recipient_index;
    count = s.count + 1;
  }
]
  where
    stored : HashMap OutPoint Utxo
    stored = insert_sorted out_point_discrete out_point_lt outpoint utxo s.utxos

-- A count of 0 with an output stored would be a panic of the subtraction; here the count stays 0.
unfoldable pub remove_utxo : OutPoint → UtxoSet → UtxoSet × Option Utxo
remove_utxo outpoint s = elim (get out_point_discrete outpoint s.utxos) [
  | some utxo ↦ (
    record {
      utxos = remove out_point_discrete outpoint s.utxos;
      recipient_index = unindex outpoint utxo.recipient s.recipient_index;
      count = s.count - 1;
    },
    some utxo,
  )
  | none ↦ (s, none)
]

unfoldable pub get_utxo : OutPoint → UtxoSet → Option Utxo
get_utxo outpoint s = get out_point_discrete outpoint s.utxos

unfoldable pub contains : OutPoint → UtxoSet → Bool
contains outpoint s = contains_key out_point_discrete outpoint s.utxos

-- The outpoints that the index lists for a recipient, with the outputs that they name.
unfoldable pub resolve : HashMap OutPoint Utxo → List OutPoint → List (OutPoint × Utxo)
resolve utxos [] = []
resolve utxos (o ∷ os) = elim (get out_point_discrete o utxos) [
  | none ↦ resolve utxos os
  | some u ↦ (o, u) ∷ resolve utxos os
]

unfoldable pub get_utxos_for_recipient : Bytes → UtxoSet → List (OutPoint × Utxo)
get_utxos_for_recipient recipient s = elim (get bytes_discrete recipient s.recipient_index) [
  | some outpoints ↦ resolve s.utxos outpoints
  | none ↦ []
]

-- `none` is the panic of a sum beyond u64.
unfoldable pub get_balance : Bytes → UtxoSet → Option ℕ
get_balance recipient s = elim (get bytes_discrete recipient s.recipient_index) [
  | some outpoints ↦ sum_u64 (map (λ e. e.1.amount) (resolve s.utxos outpoints))
  | none ↦ some 0
]

abbrev pub len : UtxoSet → ℕ
len s = s.count

abbrev pub is_empty : UtxoSet → Bool
is_empty s = s.count == 0

-- The loop of `rebuild_index`.
unfoldable pub index_all :
    HashMap OutPoint Utxo → HashMap Bytes (List OutPoint) → HashMap Bytes (List OutPoint)
index_all [] index = index
index_all ((o, u) ∷ m) index = index_all m (push_index o u.recipient index)

unfoldable pub rebuild_index : UtxoSet → UtxoSet
rebuild_index s = record s { recipient_index = index_all s.utxos []; count = length s.utxos }
