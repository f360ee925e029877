-- ===== src/Adopt/Maps.antt =====
-- src/modules/adopt_network_state.rs: the maps of a ledger response in JSON, where a key is written in
-- base64.
use mini_block_chain.Prelude.{
  ℕ, ◌≡◌, refl, sym, ap, ◌∙◌, Option, none, some, List, [], ◌∷◌, map, arith, All, All-map,
}
use mini_block_chain.Bytes.{Bytes, Text, bytes_discrete}
use mini_block_chain.HashMap.{HashMap, get, insert, IsUnique}
use mini_block_chain.HashMap.Laws.{get_of_entry, get-insert, insert-IsUnique}

-- The entries with their keys encoded.
abbrev pub encoded : {V : Type 0} → (Bytes → Text) → HashMap Bytes V → List (Text × V)
encoded encode = map (λ e. (encode e.0, e.1))

-- `collect()` into a map.
unfoldable pub collect : {V : Type 0} → List (Text × V) → HashMap Text V → HashMap Text V
collect [] m = m
collect ((t, v) ∷ es) m = collect es (insert bytes_discrete t v m)

-- Base64, and the orders in which the maps are iterated, are parameters; the result is the entries
-- of the JSON object in the order in which they are written.
module _ (encode : Bytes → Text) where
  unfoldable pub serialize_account_balances_map :
      (HashMap Bytes ℕ → HashMap Bytes ℕ)
      → (HashMap Text ℕ → HashMap Text ℕ)
      → HashMap Bytes ℕ
      → List (Text × ℕ)
  serialize_account_balances_map iterate iterate_texts m =
      iterate_texts (collect (encoded encode (iterate m)) [])

  unfoldable pub serialize_used_zk_proofs_map :
      (HashMap Bytes (List Text) → HashMap Bytes (List Text))
      → HashMap Bytes (List Text)
      → List (Text × List Text)
  serialize_used_zk_proofs_map iterate m = encoded encode (iterate m)

-- The loop of a visitor, from a map; `none` is the error on a key that is not base64.
unfoldable pub visit_map :
    {V : Type 0}
    → (Text → Option Bytes)
    → List (Text × V)
    → HashMap Bytes V
    → Option (HashMap Bytes V)
visit_map decode [] m = some m
visit_map decode ((t, v) ∷ es) m = elim (decode t) [
  | none ↦ none
  | some k ↦ visit_map decode es (insert bytes_discrete k v m)
]

abbrev pub deserialize_account_balances_map :
    (Text → Option Bytes) → List (Text × ℕ) → Option (HashMap Bytes ℕ)
deserialize_account_balances_map decode es = visit_map decode es []

abbrev pub deserialize_used_zk_proofs_map :
    (Text → Option Bytes) → List (Text × List Text) → Option (HashMap Bytes (List Text))
deserialize_used_zk_proofs_map decode es = visit_map decode es []

-- The first of two lookups that finds something.
abbrev pub or_else : {V : Type 0} → Option V → Option V → Option V
or_else (some v) o = some v
or_else none o = o

or_else-none : {V : Type 0} (o : Option V) → or_else o none ≡ o
or_else-none none = refl
or_else-none (some v) = refl

-- An order of iteration lists each entry once.
pub record IsOrder {V : Type 0} (iterate : HashMap Bytes V → HashMap Bytes V) : Type 0 where
  pub same :
      (k : Bytes) (m : HashMap Bytes V) → get bytes_discrete k (iterate m) ≡ get bytes_discrete k m
  pub unique :
      (m : HashMap Bytes V) → IsUnique bytes_discrete m → IsUnique bytes_discrete (iterate m)

module _ (encode : Bytes → Text) (decode : Text → Option Bytes)
    (decodes : (b : Bytes) → decode (encode b) ≡ some b) where
  encode_injective : (a b : Bytes) → encode a ≡ encode b → a ≡ b
  encode_injective a b e = ground (arith, decodes a, decodes b, ap decode e)

  get-encoded :
      {V : Type 0} (k : Bytes) (m : HashMap Bytes V)
      → get bytes_discrete (encode k) (encoded encode m) ≡ get bytes_discrete k m
  unfolding get
  get-encoded k [] = refl
  get-encoded k ((j, v) ∷ m) = ground (arith, get-encoded k m, encode_injective j k)

  encoded-IsUnique :
      {V : Type 0} (m : HashMap Bytes V)
      → IsUnique bytes_discrete m
      → IsUnique bytes_discrete (encoded encode m)
  encoded-IsUnique [] u = tt
  encoded-IsUnique ((k, v) ∷ m) u = (get-encoded k m ∙ u.0, encoded-IsUnique m u.1)

  get-collect :
      {V : Type 0} (t : Text) (es : List (Text × V)) (m : HashMap Text V)
      → IsUnique bytes_discrete es
      → get bytes_discrete t (collect es m)
        ≡ or_else (get bytes_discrete t es) (get bytes_discrete t m)
  unfolding collect get
  get-collect t [] m u = refl
  get-collect t ((j, v) ∷ es) m u = ground (
    arith,
    u.0,
    get-collect t es (insert bytes_discrete j v m) u.1,
    get-insert bytes_discrete j t v m,
  )

  collect-IsUnique :
      {V : Type 0} (es : List (Text × V)) (m : HashMap Text V)
      → IsUnique bytes_discrete m
      → IsUnique bytes_discrete (collect es m)
  unfolding collect
  collect-IsUnique [] m u = u
  collect-IsUnique ((j, v) ∷ es) m u =
      collect-IsUnique es (insert bytes_discrete j v m) (insert-IsUnique bytes_discrete j v m u)

  -- Every key of the entries is the text of some bytes.
  abbrev AllEncoded : {V : Type 0} → List (Text × V) → Type 0
  AllEncoded = All (λ e. (b : Bytes) × (e.0 ≡ encode b))

  visit_map_total :
      {V : Type 0} (es : List (Text × V)) (m : HashMap Bytes V)
      → AllEncoded es
      → IsUnique bytes_discrete es
      → (m' : HashMap Bytes V) × (visit_map decode es m ≡ some m')
        × ((k : Bytes)
            → get bytes_discrete k m'
              ≡ or_else (get bytes_discrete (encode k) es) (get bytes_discrete k m))
  unfolding visit_map get
  visit_map_total [] m a u = (m, refl, λ k. refl)
  visit_map_total ((t, v) ∷ es) m ((b, e), a) u =
      let (m', ended, found) = visit_map_total es (insert bytes_discrete b v m) a u.1 in
      (
        m',
        ground (arith, e, decodes b, ended),
        λ k.
            ground
              (arith, e, u.0, found k, encode_injective b k, get-insert bytes_discrete b k v m),
      )

  key_is_encoded :
      {V : Type 0} (t : Text) (v : V) (m : HashMap Bytes V)
      → get bytes_discrete t (encoded encode m) ≡ some v
      → (b : Bytes) × (t ≡ encode b)
  unfolding get
  key_is_encoded t v [] e = cc
  key_is_encoded t v ((j, w) ∷ m) e = elim (bytes_discrete (encode j) t) [
    | yes p ↦ (j, sym p)
    | no d ↦ key_is_encoded t v m (ground (arith, e, d))
  ]

  -- Entries in which lookups find what they find in encoded entries have encoded keys.
  entries_encoded :
      {V : Type 0} (es : List (Text × V)) (m : HashMap Bytes V)
      → IsUnique bytes_discrete es
      → ((t : Text) → get bytes_discrete t es ≡ get bytes_discrete t (encoded encode m))
      → AllEncoded es
  entries_encoded es m u same =
      All-map es (λ e found. key_is_encoded e.0 e.1 m (sym (same e.0) ∙ found))
        (get_of_entry bytes_discrete es u)

  -- Entries with the same lookups as a map whose keys are encoded are read back as that map.
  read_entries :
      {V : Type 0} (es : List (Text × V)) (m : HashMap Bytes V)
      → IsUnique bytes_discrete es
      → ((t : Text) → get bytes_discrete t es ≡ get bytes_discrete t (encoded encode m))
      → (m' : HashMap Bytes V) × (visit_map decode es [] ≡ some m')
        × ((k : Bytes) → get bytes_discrete k m' ≡ get bytes_discrete k m)
  unfolding get
  read_entries es m u same =
      let (m', ended, found) = visit_map_total es [] (entries_encoded es m u same) u in
      (m', ended, λ k. ground (arith, found k, same (encode k), get-encoded k m))

  -- If base64 decodes to what it encodes: both maps of a ledger response, whose keys are distinct,
  -- are read back from what was written of them without an error and with the same entries, in
  -- whatever orders the maps are iterated.
  pub maps_read_back :
      (iterate iterate_texts : HashMap Bytes ℕ → HashMap Bytes ℕ)
      (iterate_used : HashMap Bytes (List Text) → HashMap Bytes (List Text))
      (accounts : HashMap Bytes ℕ) (used : HashMap Bytes (List Text))
      → IsOrder iterate
      → IsOrder iterate_texts
      → IsOrder iterate_used
      → IsUnique bytes_discrete accounts
      → IsUnique bytes_discrete used
      → ((m : HashMap Bytes ℕ) × (deserialize_account_balances_map decode
              (serialize_account_balances_map encode iterate iterate_texts accounts)
            ≡ some m)
          × ((k : Bytes) → get bytes_discrete k m ≡ get bytes_discrete k accounts))
        × ((m : HashMap Bytes (List Text)) × (deserialize_used_zk_proofs_map decode
                (serialize_used_zk_proofs_map encode iterate_used used)
              ≡ some m)
            × ((k : Bytes) → get bytes_discrete k m ≡ get bytes_discrete k used))
  unfolding serialize_account_balances_map serialize_used_zk_proofs_map get
  maps_read_back iterate iterate_texts iterate_used accounts used o p q u w =
      let es : List (Text × ℕ) = encoded encode (iterate accounts) in
      let distinct = encoded-IsUnique (iterate accounts) (o.unique accounts u) in
      let (m, ended, found) =
        read_entries (iterate_texts (collect es [])) (iterate accounts)
          (p.unique (collect es []) (collect-IsUnique es [] tt))
          (λ t.
            p.same t (collect es [])
            ∙ get-collect t es [] distinct
            ∙ or_else-none (get bytes_discrete t es)) in
      let (m', ended', found') =
        read_entries (encoded encode (iterate_used used)) (iterate_used used)
          (encoded-IsUnique (iterate_used used) (q.unique used w)) (λ t. refl) in
      ((m, ended, λ k. found k ∙ o.same k accounts), (m', ended', λ k. found' k ∙ q.same k used))
