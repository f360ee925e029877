-- ===== src/Client/Ports.antt =====
-- src/modules/network.rs: the configured ports, and how a node binds to one of them.
use mini_block_chain.Prelude.{
  ℕ, zero, suc, ◌+◌, ◌/◌, ◌%◌, ◌≡◌, refl, ap, ◌≢◌, ◌⊎◌, inl, inr, Option, none, some, List, [], ◌∷◌,
  ◌++◌, arith, ltb, if◌then◌else◌, Option-cases, All,
}
use mini_block_chain.Bytes.{Text}

pub record PortConfig : Type 0 where
  pub id : Text
  pub address : Text
  pub port : ℕ

-- The decimal digits of a number that has at most `k` of them.
unfoldable pub digits : ℕ → ℕ → Text
digits zero n = []
digits (suc k) n =
    let before = digits k (n / 10) in
    if ltb n 10 then (b'0' + n) ∷ [] else before ++ (b'0' + n % 10) ∷ []

-- `format!("{}:{}", node.address, node.port)`, where a port is a u16.
unfoldable pub address_of : PortConfig → Text
address_of p = p.address ++ b':' ∷ digits 5 p.port

-- The listener's address, or the error: of the file, of its JSON, or of the last port.
pub data Binding : Type 0 where
  bound : (port_address : Text) → Binding
  unreadable_config unparsable_config no_ports_available : Binding
  refused : (error : Text) → Binding

-- What comes of reading and parsing accepted_ports.json.
pub data Config : Type 0 where
  unreadable unparsable : Config
  nodes : List PortConfig → Config

-- Binding to an address is a parameter: the error, if it fails.
module _ (bind : Text → Option Text) where
  unfoldable pub bind_first : List PortConfig → Option Text → Binding
  bind_first [] none = Binding.no_ports_available
  bind_first [] (some e) = Binding.refused e
  bind_first (p ∷ ps) last_error = elim (bind (address_of p)) [
    | none ↦ Binding.bound (address_of p)
    | some e ↦ bind_first ps (some e)
  ]

  unfoldable pub try_bind_to_ports : Config → Binding
  try_bind_to_ports Config.unreadable = Binding.unreadable_config
  try_bind_to_ports Config.unparsable = Binding.unparsable_config
  try_bind_to_ports (Config.nodes ps) = bind_first ps none

  -- The error of the last port, or the one before the loop.
  abbrev pub last_refusal : List PortConfig → Option Text → Option Text
  last_refusal [] last_error = last_error
  last_refusal (p ∷ ps) last_error = last_refusal ps (bind (address_of p))

  abbrev pub IsRefused : PortConfig → Type 0
  IsRefused p = bind (address_of p) ≢ none

  abbrev pub failure : Option Text → Binding
  failure none = Binding.no_ports_available
  failure (some e) = Binding.refused e

  bind_first_lem :
      (ps : List PortConfig) (last_error : Option Text)
      → ((before : List PortConfig) × (p : PortConfig) × (behind : List PortConfig) × (ps
            ≡ before ++ p ∷ behind)
          × All IsRefused before
          × (bind (address_of p) ≡ none)
          × (bind_first ps last_error ≡ Binding.bound (address_of p)))
        ⊎ (All IsRefused ps × (bind_first ps last_error ≡ failure (last_refusal ps last_error)))
  unfolding bind_first
  bind_first_lem [] none = inr (tt, refl)
  bind_first_lem [] (some e) = inr (tt, refl)
  bind_first_lem (p ∷ ps) last_error = elim (Option-cases (bind (address_of p))) [
    | inl e ↦ inl ([], p, ps, refl, tt, e, ground (arith, e))
    | inr (e, q) ↦ elim (bind_first_lem ps (some e)) [
      | inl (before, p', behind, split, tried, free, result) ↦ inl (
        p ∷ before,
        p',
        behind,
        ap (λ (qs : List PortConfig). p ∷ qs) split,
        ((λ n. cc (n, q)), tried),
        free,
        ground (arith, q, result),
      )
      | inr (tried, result) ↦ inr (((λ n. cc (n, q)), tried), ground (arith, q, result))
    ]
  ]

  -- With ports to try, a node is bound to the first that is not refused, after each port before it
  -- was tried; if all are refused the error is that of the last one.
  pub try_bind_to_ports_lem :
      (ps : List PortConfig)
      → ((before : List PortConfig) × (p : PortConfig) × (behind : List PortConfig) × (ps
            ≡ before ++ p ∷ behind)
          × All IsRefused before
          × (bind (address_of p) ≡ none)
          × (try_bind_to_ports (Config.nodes ps) ≡ Binding.bound (address_of p)))
        ⊎ (All IsRefused ps
            × (try_bind_to_ports (Config.nodes ps) ≡ failure (last_refusal ps none)))
  unfolding try_bind_to_ports
  try_bind_to_ports_lem ps = bind_first_lem ps none
