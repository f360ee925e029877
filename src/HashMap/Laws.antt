-- ===== src/HashMap/Laws.antt =====
-- What a lookup finds after each operation of a map.
use mini_block_chain.Prelude.{
  All-map, if_pos, All, ◌≡◌, refl, Bool, none, some, [], ◌∷◌, ite, arith,
}
use mini_block_chain.HashMap.{HashMap, get, insert, remove, IsUnique, place, insert_sorted}

module _ {K V : Type 0} (dec : Discrete K) where
  pub get-insert :
      (k j : K) (v : V) (m : HashMap K V)
      → get dec j (insert dec k v m) ≡ ite (dec k j) (some v) (get dec j m)
  unfolding get insert
  get-insert k j v [] = refl
  get-insert k j v ((i, w) ∷ m) = ground (arith, get-insert k j v m)

  pub get-remove :
      (k j : K) (m : HashMap K V)
      → IsUnique dec m
      → get dec j (remove dec k m) ≡ ite (dec k j) none (get dec j m)
  unfolding get remove
  get-remove k j [] u = ground arith
  get-remove k j ((i, w) ∷ m) u = ground (arith, get-remove k j m u.1)

  pub insert-IsUnique :
      (k : K) (v : V) (m : HashMap K V) → IsUnique dec m → IsUnique dec (insert dec k v m)
  unfolding insert get
  insert-IsUnique k v [] u = (refl, tt)
  insert-IsUnique k v ((i, w) ∷ m) u = ground (arith, insert-IsUnique k v m u.1, get-insert k i v m)

  pub remove-IsUnique : (k : K) (m : HashMap K V) → IsUnique dec m → IsUnique dec (remove dec k m)
  unfolding remove get
  remove-IsUnique k [] u = tt
  remove-IsUnique k ((i, w) ∷ m) u = ground (arith, remove-IsUnique k m u.1, get-remove k i m u.1)

  module _ (lt : K → K → Bool) where
    get-place :
        (k j : K) (v : V) (m : HashMap K V)
        → get dec k m ≡ none
        → get dec j (place dec lt k v m) ≡ ite (dec k j) (some v) (get dec j m)
    unfolding get place
    get-place k j v [] h = refl
    get-place k j v ((i, w) ∷ m) h = ground (arith, get-place k j v m)

    place-IsUnique :
        (k : K) (v : V) (m : HashMap K V)
        → get dec k m ≡ none
        → IsUnique dec m
        → IsUnique dec (place dec lt k v m)
    unfolding place get
    place-IsUnique k v [] h u = (refl, tt)
    place-IsUnique k v ((i, w) ∷ m) h u = ground (arith, place-IsUnique k v m, get-place k i v m)

    pub get-insert_sorted :
        (k j : K) (v : V) (m : HashMap K V)
        → get dec j (insert_sorted dec lt k v m) ≡ ite (dec k j) (some v) (get dec j m)
    unfolding insert_sorted
    get-insert_sorted k j v m = ground (arith, get-insert k j v m, get-place k j v m)

    pub insert_sorted-IsUnique :
        (k : K) (v : V) (m : HashMap K V)
        → IsUnique dec m
        → IsUnique dec (insert_sorted dec lt k v m)
    unfolding insert_sorted
    insert_sorted-IsUnique k v m u = ground (arith, insert-IsUnique k v m u, place-IsUnique k v m)

  -- Each entry is what a lookup of its key finds.
  pub get_of_entry : (m : HashMap K V) → IsUnique dec m → All (λ e. get dec e.0 m ≡ some e.1) m
  unfolding get
  get_of_entry [] u = tt
  get_of_entry ((k, v) ∷ m) u =
      (if_pos (dec k k) refl _ _, All-map m (λ e h. ground arith) (get_of_entry m u.1))
