-- ===== src/HashMap.antt =====
-- `std::collections::HashMap` as the program uses it: an association list, whose order is the
-- order of iteration. `insert_sorted` is `BTreeMap::insert`: a new key goes to its place in
-- the order of the keys.
pub mod Laws
pub mod Sizes
use mini_block_chain.Prelude.{
  ℕ, Bool, true, false, Option, none, some, List, [], ◌∷◌, ite, if◌then◌else◌, length, ◌≡◌,
}

abbrev pub HashMap : Type 0 → Type 0 → Type 0
HashMap K V = List (K × V)

module _ {K V : Type 0} (dec : Discrete K) where
  unfoldable pub get : K → HashMap K V → Option V
  get k [] = none
  get k ((j, v) ∷ m) = ite (dec j k) (some v) (get k m)

  abbrev pub contains_key : K → HashMap K V → Bool
  contains_key k m = elim (get k m) [ none ↦ false | some _ ↦ true ]

  unfoldable pub insert : K → V → HashMap K V → HashMap K V
  insert k v [] = (k, v) ∷ []
  insert k v ((j, w) ∷ m) = ite (dec j k) ((j, v) ∷ m) ((j, w) ∷ insert k v m)

  unfoldable pub remove : K → HashMap K V → HashMap K V
  remove k [] = []
  remove k ((j, w) ∷ m) = ite (dec j k) m ((j, w) ∷ remove k m)

  -- `if let Some(v) = map.get_mut(k) { *v = f(v) }`
  abbrev pub modify : K → (V → V) → HashMap K V → HashMap K V
  modify k f m = elim (get k m) [ none ↦ m | some v ↦ insert k (f v) m ]

  -- No key occurs twice.
  abbrev pub IsUnique : HashMap K V → Type 0
  IsUnique [] = Unit
  IsUnique ((k, v) ∷ m) = (get k m ≡ none) × IsUnique m

  -- `map.entry(k).or_insert_with(Vec::new).push(a)` and the like: the entry is made first.
  abbrev pub upsert : K → V → (V → V) → HashMap K V → HashMap K V
  upsert k fresh f m = elim (get k m) [ none ↦ insert k (f fresh) m | some v ↦ insert k (f v) m ]

  module _ (lt : K → K → Bool) where
    -- Where a key that the map lacks goes: before the first key that is larger.
    unfoldable pub place : K → V → HashMap K V → HashMap K V
    place k v [] = (k, v) ∷ []
    place k v ((j, w) ∷ m) = if lt k j then (k, v) ∷ (j, w) ∷ m else (j, w) ∷ place k v m

    -- `BTreeMap::insert`
    unfoldable pub insert_sorted : K → V → HashMap K V → HashMap K V
    unfolding place
    insert_sorted k v m = elim (get k m) [ none ↦ place k v m | some _ ↦ insert k v m ]
