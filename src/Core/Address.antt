-- ===== src/Core/Address.antt =====
-- core/address.go: ricochet addresses, onion hostnames and plain hosts.
pub mod RoundTrip
pub mod Tests
use ricochet_go.Common.{
  ◌+◌, Bool, true, false, [], ◌∷◌, ◌++◌, ◌&&◌, ◌||◌, Option, none, some, Bytes, codes, length, take,
  drop, has_prefix, has_suffix, ltb, ◌==◌, if◌then◌else◌,
}

pub is_base32_valid : Bytes → Bool
is_base32_valid [] = true
is_base32_valid (c ∷ str) =
    if (ltb c b'a' || ltb b'z' c) && (ltb c b'2' || ltb b'7' c) then false else is_base32_valid str

abbrev pub scheme : Bytes
scheme = codes "ricochet:"

abbrev pub onion_suffix : Bytes
onion_suffix = codes ".onion"

-- `addr[9:]` is read only where the length is 25.
unfoldable pub is_address_valid : Bytes → Bool
unfolding is_base32_valid has_prefix
is_address_valid addr = length addr == 25 && has_prefix addr scheme && is_base32_valid (drop 9 addr)

unfoldable pub is_onion_valid : Bytes → Bool
unfolding is_base32_valid has_suffix
is_onion_valid onion =
    length onion == 22 && has_suffix onion onion_suffix && is_base32_valid (take 16 onion)

unfoldable pub is_plain_host_valid : Bytes → Bool
unfolding is_base32_valid
is_plain_host_valid host = length host == 16 && is_base32_valid host

-- A result `(string, bool)` stays a pair: callers use the string where the flag is false.
unfoldable pub address_from_onion : Bytes → Bytes × Bool
unfolding is_onion_valid
address_from_onion onion =
    if is_onion_valid onion then (scheme ++ take 16 onion, true) else ([], false)

unfoldable pub onion_from_address : Bytes → Bytes × Bool
unfolding is_address_valid
onion_from_address addr =
    if is_address_valid addr then (drop 9 addr ++ onion_suffix, true) else ([], false)

unfoldable pub onion_from_plain_host : Bytes → Bytes × Bool
unfolding is_plain_host_valid
onion_from_plain_host host =
    if is_plain_host_valid host then (host ++ onion_suffix, true) else ([], false)

unfoldable pub plain_host_from_onion : Bytes → Bytes × Bool
unfolding is_onion_valid
plain_host_from_onion onion = if is_onion_valid onion then (take 16 onion, true) else ([], false)

unfoldable pub address_from_plain_host : Bytes → Bytes × Bool
unfolding is_plain_host_valid
address_from_plain_host host =
    if is_plain_host_valid host then (scheme ++ host, true) else ([], false)

unfoldable pub plain_host_from_address : Bytes → Bytes × Bool
unfolding is_address_valid
plain_host_from_address host = if is_address_valid host then (drop 9 host, true) else ([], false)

-- `onion_addr` is `pkcs1.OnionAddr` on the given key; `none` is an error. `none` here is an error too.
unfoldable pub address_from_key {ℓ} : {Key : Type ℓ} → (Key → Option Bytes) → Key → Option Bytes
address_from_key onion_addr key = elim (onion_addr key) [
  | none ↦ none
  | some addr ↦ if length addr == 0 then none else some (scheme ++ addr)
]
