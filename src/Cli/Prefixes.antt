-- ===== src/Cli/Prefixes.antt =====
-- ricochet-cli/ui.go: the prefixes by which the user names contacts and requests.
-- Slicing a host that is too short is a panic; a function that may panic returns `none` then. A Go map
-- is walked in the order of its association list, which stands for any order.
pub mod Separation
pub mod RoundTrip
pub mod Tests
use mathlib.Core.Option
use ricochet_go.Common.{
  ℕ, zero, suc, ◌+◌, Bool, true, false, ◌&&◌, ◌||◌, Option, none, some, is_some, List, [], ◌∷◌,
  Bytes, bytes_eq, length, take, ltb, leb, if◌then◌else◌,
}
use ricochet_go.Core.Address.{plain_host_from_address}

abbrev pub min_contact_prefix : ℕ
min_contact_prefix = 3

-- `s[:n]`.
unfoldable pub slice : Bytes → ℕ → Option Bytes
slice s n = if leb n (length s) then some (take n s) else none

abbrev pub host_of : Bytes → Bytes
host_of address = (plain_host_from_address address).0

-- The inner loop of `PrefixForAddress`, on fuel: the prefix of `host` grows while it is a prefix of
-- the other host. At the end of the fuel there is no result.
pub lengthen : ℕ → Bytes → Bytes → Bytes → Option Bytes
lengthen zero host other prefix = none
lengthen (suc fuel) host other prefix = elim (slice other (length prefix)) [
  | none ↦ none
  | some start ↦ elim (bytes_eq prefix start && ltb (length prefix) (length host)) [
    | true ↦ elim (slice host (length prefix + 1)) [
      | none ↦ none
      | some longer ↦ lengthen fuel host other longer
    ]
    | false ↦ some prefix
  ]
]

-- The outer loop, over the addresses of the contacts or of the requests. The prefix never grows beyond
-- the host, which gives the fuel.
pub separate : Bytes → List Bytes → Bytes → Option Bytes
unfolding lengthen
separate host [] prefix = some prefix
separate host (address ∷ rest) prefix = elim (bytes_eq (host_of address) host) [
  | true ↦ separate host rest prefix
  | false ↦ elim (lengthen (suc (length host)) host (host_of address) prefix) [
    | none ↦ none
    | some longer ↦ separate host rest longer
  ]
]

unfoldable pub prefix_for_address : List Bytes → List Bytes → Bytes → Option Bytes
unfolding separate
prefix_for_address contacts requests address =
    let host = host_of address in
    elim (slice host min_contact_prefix) [
      | none ↦ none
      | some prefix ↦ elim (separate host contacts prefix) [
        | none ↦ none
        | some longer ↦ separate host requests longer
      ]
    ]

-- A contact, a request, or neither.
abbrev pub Entity : Type 0
Entity = Option Bytes × Option Bytes

-- `prefix == host[:len(prefix)]`.
pub matches : Bytes → Bytes → Option Bool
matches prefix address = elim (slice (host_of address) (length prefix)) [
  | none ↦ none
  | some start ↦ some (bytes_eq prefix start)
]

-- The first loop of `EntityByPrefix`; `none` inside is the return for an ambiguous prefix.
pub find_one : Bytes → List Bytes → Option Bytes → Option (Option (Option Bytes))
unfolding matches
find_one prefix [] found = some (some found)
find_one prefix (address ∷ rest) found = elim (matches prefix address) [
  | none ↦ none
  | some false ↦ find_one prefix rest found
  | some true ↦ if is_some found then some none else find_one prefix rest (some address)
]

-- The second loop, with the contact that was found.
pub find_request : Bytes → Option Bytes → List Bytes → Option Bytes → Option Entity
unfolding matches
find_request prefix contact [] found = some (contact, found)
find_request prefix contact (address ∷ rest) found = elim (matches prefix address) [
  | none ↦ none
  | some false ↦ find_request prefix contact rest found
  | some true ↦
      if is_some contact || is_some found
      then some (none, none)
      else find_request prefix contact rest (some address)
]

unfoldable pub entity_by_prefix : List Bytes → List Bytes → Bytes → Option Entity
unfolding find_one find_request
entity_by_prefix contacts requests prefix =
    if ltb (length prefix) min_contact_prefix || ltb 16 (length prefix)
    then some (none, none)
    else elim (find_one prefix contacts none) [
      | none ↦ none
      | some none ↦ some (none, none)
      | some (some contact) ↦ find_request prefix contact requests none
    ]
