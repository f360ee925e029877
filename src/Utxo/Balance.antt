-- ===== src/Utxo/Balance.antt =====
-- src/modules/utxo.rs: `get_balance` by way of the index, and `rebuild_index`.
use mini_block_chain.Prelude.{
  ℕ, ◌+◌, ◌≡◌, refl, sym, ap, ◌∙◌, inl, inr, ite, none, some, List, [], ◌∷◌, map, arith,
  Option-cases, sum, All, All-map, count, sum_of_count-eq, in_u64, sum_u64_lem,
}
use mini_block_chain.Bytes.{Bytes, bytes_discrete}
use mini_block_chain.HashMap.{IsUnique, HashMap, get}
use mini_block_chain.HashMap.Sizes.{total, at}
use mini_block_chain.HashMap.Laws.{get_of_entry}
use mini_block_chain.Utxo.{OutPoint, out_point_discrete, Utxo}
use mini_block_chain.Utxo.Set.{push_index, index_all, rebuild_index, UtxoSet, resolve, get_balance}
use mini_block_chain.Utxo.Index.{
  push_index-IsUnique, push_index-NoEmpty, NoEmpty, Index, listed, owned, IsIndexed,
  count-push_index,
}

-- The outpoints of a recipient, by a scan of the stored outputs.
scan : Bytes → HashMap OutPoint Utxo → List OutPoint
scan r [] = []
scan r ((o, u) ∷ m) = ite (bytes_discrete u.recipient r) (o ∷ scan r m) (scan r m)

-- The amount of an output, if it pays the recipient.
abbrev pub paid_to : Bytes → Utxo → ℕ
paid_to r u = ite (bytes_discrete u.recipient r) u.amount 0

count-scan :
    (o : OutPoint) (r : Bytes) (m : HashMap OutPoint Utxo)
    → IsUnique out_point_discrete m
    → count out_point_discrete o (scan r m) ≡ owned o r m
unfolding count scan owned get
count-scan o r [] h = refl
count-scan o r ((k, u) ∷ m) h = ground (arith, h.0, count-scan o r m h.1)

sum-scan :
    (w : OutPoint → ℕ) (r : Bytes) (m : HashMap OutPoint Utxo)
    → All (λ e. w e.0 ≡ e.1.amount) m
    → sum w (scan r m) ≡ total (paid_to r) m
unfolding sum scan total
sum-scan w r [] h = refl
sum-scan w r ((k, u) ∷ m) h = ground (arith, sum-scan w r m h.1)

-- The amount that an outpoint stands for.
amount_at : HashMap OutPoint Utxo → OutPoint → ℕ
amount_at m o = at (λ u. u.amount) (get out_point_discrete o m)

sum-resolve :
    (m : HashMap OutPoint Utxo) (os : List OutPoint)
    → sum (λ x. x) (map (λ e. e.1.amount) (resolve m os)) ≡ sum (amount_at m) os
unfolding sum resolve amount_at
sum-resolve m [] = refl
sum-resolve m (o ∷ os) = ground (arith, sum-resolve m os)

sum-listed :
    (r : Bytes) (s : UtxoSet)
    → IsIndexed s
    → sum (amount_at s.utxos) (listed r s.recipient_index) ≡ total (paid_to r) s.utxos
unfolding amount_at
sum-listed r s h =
    sum_of_count-eq out_point_discrete w (listed r s.recipient_index) (scan r s.utxos)
      (λ o. h.exact o r ∙ sym (count-scan o r s.utxos h.unique))
    ∙ sum-scan w r s.utxos (
        All-map s.utxos (λ e q. ap (at (λ u. u.amount)) q)
          (get_of_entry out_point_discrete s.utxos h.unique))
  where
    w : OutPoint → ℕ
    w = amount_at s.utxos

sum_empty : (w : OutPoint → ℕ) → sum w [] ≡ 0
unfolding sum
sum_empty w = refl

listed-none : (r : Bytes) (index : Index) → get bytes_discrete r index ≡ none → listed r index ≡ []
unfolding listed
listed-none r index e = ground arith

listed-some :
    (r : Bytes) (index : Index) (os : List OutPoint)
    → get bytes_discrete r index ≡ some os
    → listed r index ≡ os
unfolding listed
listed-some r index os e = ground arith

-- On an indexed set, the balance of a recipient is the sum of the amounts of the stored outputs
-- that pay it, and the call panics exactly if that sum does not fit a u64.
pub get_balance_lem :
    (r : Bytes) (s : UtxoSet) → IsIndexed s → get_balance r s ≡ in_u64 (total (paid_to r) s.utxos)
unfolding get_balance
get_balance_lem r s h = elim (Option-cases (get bytes_discrete r s.recipient_index)) [
  | inl e ↦
      ground
        (arith, e, listed-none r s.recipient_index, sum-listed r s h, sum_empty (amount_at s.utxos))
  | inr (os, e) ↦ ground (
    arith,
    e,
    sum_u64_lem (map (λ e. e.1.amount) (resolve s.utxos os)),
    sum-resolve s.utxos os,
    listed-some r s.recipient_index os,
    sum-listed r s h,
  )
]

abbrev Rebuilds : HashMap OutPoint Utxo → Index → Index → Type 0
Rebuilds m before after =
    ((o : OutPoint) (r : Bytes)
      → count out_point_discrete o (listed r after)
        ≡ count out_point_discrete o (listed r before) + owned o r m)
    × NoEmpty after
    × IsUnique bytes_discrete after

index_all-Rebuilds :
    (m : HashMap OutPoint Utxo) (index : Index)
    → IsUnique out_point_discrete m
    → NoEmpty index
    → IsUnique bytes_discrete index
    → Rebuilds m index (index_all m index)
unfolding index_all owned get
index_all-Rebuilds [] index u n v = ((λ o r. omega arith), n, v)
index_all-Rebuilds ((k, x) ∷ m) index u n v =
    let index' = push_index k x.recipient index in
    let rest : Rebuilds m index' (index_all m index') =
      index_all-Rebuilds m index' u.1 (push_index-NoEmpty k x.recipient index n)
        (push_index-IsUnique k x.recipient index v) in
    (
      (λ o r. ground (arith, u.0, rest.0 o r, count-push_index k o x.recipient r index)),
      rest.1,
      rest.2,
    )

-- If no outpoint is stored twice, `rebuild_index` makes the index and the count exact, whatever
-- they were.
pub rebuild_index-IsIndexed :
    (s : UtxoSet) → IsUnique out_point_discrete s.utxos → IsIndexed (rebuild_index s)
unfolding rebuild_index listed count get
rebuild_index-IsIndexed s u = record {
  unique = u;
  index_unique = made.2;
  exact = λ o r. made.0 o r ∙ omega arith;
  no_empty = made.1;
  counted = refl;
}
  where
    made : Rebuilds s.utxos [] (index_all s.utxos [])
    made = index_all-Rebuilds s.utxos [] u (λ r. cc) tt
