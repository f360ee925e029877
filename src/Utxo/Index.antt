-- ===== src/Utxo/Index.antt =====
-- src/modules/utxo.rs, `UTXOSet`: the index by recipient and the count, next to the stored
-- outputs.
use mathlib.Core.Option
use mini_block_chain.Prelude.{
  count-append, ◌+◌, count-retain_ne, ℕ, ◌≡◌, ◌≢◌, refl, none, some, List, [], ◌∷◌, ◌++◌, ite,
  arith, length, count, retain_ne, inl, inr, Option-cases,
}
use mini_block_chain.Bytes.{Bytes, bytes_discrete}
use mini_block_chain.HashMap.{remove, insert_sorted, HashMap, get, IsUnique}
use mini_block_chain.HashMap.Sizes.{length-remove, length-insert_sorted}
use mini_block_chain.HashMap.Laws.{
  get-insert_sorted, insert_sorted-IsUnique, get-insert, get-remove, insert-IsUnique,
  remove-IsUnique,
}
use mini_block_chain.Utxo.{out_point_lt, OutPoint, out_point_discrete, Utxo}
use mini_block_chain.Utxo.Set.{remove_utxo, add_utxo, UtxoSet, unindex, push_index}

abbrev pub Index : Type 0
Index = HashMap Bytes (List OutPoint)

-- The outpoints that the index lists for a recipient.
unfoldable pub listed : Bytes → Index → List OutPoint
listed r index = Option.get_or (get bytes_discrete r index) []

-- 1 if an outpoint is stored and pays the recipient, else 0.
unfoldable pub owned : OutPoint → Bytes → HashMap OutPoint Utxo → ℕ
owned o r utxos = elim (get out_point_discrete o utxos) [
  | none ↦ 0
  | some u ↦ ite (bytes_discrete u.recipient r) 1 0
]

pub record IsIndexed (s : UtxoSet) : Type 0 where
  pub unique : IsUnique out_point_discrete s.utxos
  pub index_unique : IsUnique bytes_discrete s.recipient_index
  pub exact :
      (o : OutPoint) (r : Bytes)
      → count out_point_discrete o (listed r s.recipient_index) ≡ owned o r s.utxos
  pub no_empty : (r : Bytes) → get bytes_discrete r s.recipient_index ≢ some []
  pub counted : s.count ≡ length s.utxos

retain_nil : (o : OutPoint) → retain_ne out_point_discrete o [] ≡ []
unfolding retain_ne
retain_nil o = refl

listed-push_index :
    (o : OutPoint) (r r' : Bytes) (index : Index)
    → listed r' (push_index o r index)
      ≡ ite (bytes_discrete r r') (listed r index ++ o ∷ []) (listed r' index)
unfolding listed push_index
listed-push_index o r r' index = elim (Option-cases (get bytes_discrete r index)) [
  | inl e ↦ ground (arith, get-insert bytes_discrete r r' (o ∷ []) index)
  | inr (v, e) ↦ ground (arith, get-insert bytes_discrete r r' (v ++ o ∷ []) index)
]

listed-unindex :
    (o : OutPoint) (r r' : Bytes) (index : Index)
    → IsUnique bytes_discrete index
    → listed r' (unindex o r index)
      ≡ ite
          (bytes_discrete r r')
          (retain_ne out_point_discrete o (listed r index))
          (listed r' index)
unfolding listed unindex
listed-unindex o r r' index u = elim (Option-cases (get bytes_discrete r index)) [
  | inl e ↦ ground (arith, retain_nil o)
  | inr (v, e) ↦ ground (
    arith,
    get-insert bytes_discrete r r' (retain_ne out_point_discrete o v) index,
    get-remove bytes_discrete r r' index u,
  )
]

unindex-IsUnique :
    (o : OutPoint) (r : Bytes) (index : Index)
    → IsUnique bytes_discrete index
    → IsUnique bytes_discrete (unindex o r index)
unfolding unindex
unindex-IsUnique o r index u = grind (arith, insert-IsUnique, remove-IsUnique)

pub push_index-IsUnique :
    (o : OutPoint) (r : Bytes) (index : Index)
    → IsUnique bytes_discrete index
    → IsUnique bytes_discrete (push_index o r index)
unfolding push_index
push_index-IsUnique o r index u = grind (arith, insert-IsUnique)

-- Neither helper leaves an empty entry behind.
abbrev pub NoEmpty : Index → Type 0
NoEmpty index = (r : Bytes) → get bytes_discrete r index ≢ some []

unindex-NoEmpty :
    (o : OutPoint) (r : Bytes) (index : Index)
    → IsUnique bytes_discrete index
    → NoEmpty index
    → NoEmpty (unindex o r index)
unfolding unindex
unindex-NoEmpty o r index u h r' = elim (Option-cases (get bytes_discrete r index)) [
  | inl e ↦ ground (arith, h r')
  | inr (v, e) ↦ ground (
    arith,
    h r',
    get-insert bytes_discrete r r' (retain_ne out_point_discrete o v) index,
    get-remove bytes_discrete r r' index u,
  )
]

append_nonempty : (xs : List OutPoint) (o : OutPoint) → (xs ++ o ∷ []) ≢ []
append_nonempty [] o = cc
append_nonempty (x ∷ xs) o = cc

pub push_index-NoEmpty :
    (o : OutPoint) (r : Bytes) (index : Index) → NoEmpty index → NoEmpty (push_index o r index)
unfolding push_index
push_index-NoEmpty o r index h r' = elim (Option-cases (get bytes_discrete r index)) [
  | inl e ↦ ground (arith, h r', get-insert bytes_discrete r r' (o ∷ []) index)
  | inr (v, e) ↦
      ground (arith, h r', append_nonempty v o, get-insert bytes_discrete r r' (v ++ o ∷ []) index)
]

pub count-push_index :
    (o o' : OutPoint) (r r' : Bytes) (index : Index)
    → count out_point_discrete o' (listed r' (push_index o r index))
      ≡ count out_point_discrete o' (listed r' index)
        + ite (bytes_discrete r r') (ite (out_point_discrete o o') 1 0) 0
unfolding count
count-push_index o o' r r' index = ground (
  arith,
  listed-push_index o r r' index,
  count-append out_point_discrete o' (listed r index) (o ∷ []),
)

count-unindex :
    (o o' : OutPoint) (r r' : Bytes) (index : Index)
    → IsUnique bytes_discrete index
    → count out_point_discrete o' (listed r' (unindex o r index))
      ≡ ite
          (bytes_discrete r r')
          (ite (out_point_discrete o o') 0 (count out_point_discrete o' (listed r index)))
          (count out_point_discrete o' (listed r' index))
count-unindex o o' r r' index u =
    ground (
      arith,
      listed-unindex o r r' index u,
      count-retain_ne out_point_discrete o o' (listed r index),
    )

owned-insert_sorted :
    (o o' : OutPoint) (r : Bytes) (u : Utxo) (m : HashMap OutPoint Utxo)
    → owned o' r (insert_sorted out_point_discrete out_point_lt o u m)
      ≡ ite (out_point_discrete o o') (ite (bytes_discrete u.recipient r) 1 0) (owned o' r m)
unfolding owned
owned-insert_sorted o o' r u m =
    ground (arith, get-insert_sorted out_point_discrete out_point_lt o o' u m)

owned-remove :
    (o o' : OutPoint) (r : Bytes) (m : HashMap OutPoint Utxo)
    → IsUnique out_point_discrete m
    → owned o' r (remove out_point_discrete o m) ≡ ite (out_point_discrete o o') 0 (owned o' r m)
unfolding owned
owned-remove o o' r m u = ground (arith, get-remove out_point_discrete o o' m u)

add_utxo_exact :
    (o o' : OutPoint) (r : Bytes) (u : Utxo) (s : UtxoSet)
    → IsIndexed s
    → count out_point_discrete o' (listed r (add_utxo o u s).recipient_index)
      ≡ owned o' r (add_utxo o u s).utxos
unfolding add_utxo
add_utxo_exact o o' r u s h = elim (Option-cases (get out_point_discrete o s.utxos)) [
  | inl e ↦
      unfold owned in
      ground (
        arith,
        e,
        h.exact o' r,
        count-push_index o o' u.recipient r s.recipient_index,
        get-insert_sorted out_point_discrete out_point_lt o o' u s.utxos,
      )
  | inr (old, e) ↦
      unfold owned in
      ground (
        arith,
        e,
        h.exact o' r,
        count-push_index o o' u.recipient r (unindex o old.recipient s.recipient_index),
        count-unindex o o' old.recipient r s.recipient_index h.index_unique,
        get-insert_sorted out_point_discrete out_point_lt o o' u s.utxos,
      )
]

remove_utxo_exact :
    (o o' : OutPoint) (r : Bytes) (s : UtxoSet)
    → IsIndexed s
    → count out_point_discrete o' (listed r (remove_utxo o s).0.recipient_index)
      ≡ owned o' r (remove_utxo o s).0.utxos
unfolding remove_utxo owned
remove_utxo_exact o o' r s h = elim (Option-cases (get out_point_discrete o s.utxos)) [
  | inl e ↦ ground (arith, e, h.exact o' r)
  | inr (old, e) ↦ ground (
    arith,
    e,
    h.exact o' r,
    count-unindex o o' old.recipient r s.recipient_index h.index_unique,
    get-remove out_point_discrete o o' s.utxos h.unique,
  )
]

-- Adding an output to an indexed set keeps the index and the count exact, also where it replaces
-- one.
pub add_utxo-IsIndexed :
    (o : OutPoint) (u : Utxo) (s : UtxoSet) → IsIndexed s → IsIndexed (add_utxo o u s)
unfolding add_utxo
add_utxo-IsIndexed o u s h = record {
  unique =
      grind (arith, insert_sorted-IsUnique out_point_discrete out_point_lt o u s.utxos h.unique);
  index_unique = grind (arith, h.index_unique, push_index-IsUnique, unindex-IsUnique);
  exact = λ o' r. add_utxo_exact o o' r u s h;
  no_empty = λ r. elim (Option-cases (get out_point_discrete o s.utxos)) [
    | inl e ↦ rw (e, add_utxo) (push_index-NoEmpty o u.recipient s.recipient_index h.no_empty r)
    | inr (old, e) ↦
        rw (e, add_utxo)
          (push_index-NoEmpty o u.recipient (unindex o old.recipient s.recipient_index)
            (unindex-NoEmpty o old.recipient s.recipient_index h.index_unique h.no_empty) r)
  ];
  counted =
      ground (arith, h.counted, length-insert_sorted out_point_discrete out_point_lt o u s.utxos);
}

-- Removing an output from an indexed set, stored or not, keeps the index and the count exact.
pub remove_utxo-IsIndexed :
    (o : OutPoint) (s : UtxoSet) → IsIndexed s → IsIndexed (remove_utxo o s).0
unfolding remove_utxo
remove_utxo-IsIndexed o s h = record {
  unique = grind (arith, h.unique, remove-IsUnique out_point_discrete o s.utxos h.unique);
  index_unique = grind (arith, h.index_unique, unindex-IsUnique);
  exact = λ o' r. remove_utxo_exact o o' r s h;
  no_empty = λ r. elim (Option-cases (get out_point_discrete o s.utxos)) [
    | inl e ↦ rw (e, remove_utxo) (h.no_empty r)
    | inr (old, e) ↦
        rw (e, remove_utxo)
          (unindex-NoEmpty o old.recipient s.recipient_index h.index_unique h.no_empty r)
  ];
  counted = ground (arith, h.counted, length-remove out_point_discrete o s.utxos);
}
