-- ===== src/Core/Address/Tests.antt =====
-- core/address.go on one identity.
use ricochet_go.Common.{true, bytes_eq, ◌≡◌, refl, Bytes, codes}
use ricochet_go.Core.Address.{
  is_address_valid, is_plain_host_valid, address_from_onion, onion_from_address,
  onion_from_plain_host, plain_host_from_onion, address_from_plain_host, plain_host_from_address,
}
use ricochet_go.Core.Address.RoundTrip.{plain_host_round_trip, address_round_trip}

abbrev plain : Bytes
plain = codes "abcdefghij234567"

abbrev onion : Bytes
onion = codes "abcdefghij234567.onion"

abbrev ricochet_address : Bytes
ricochet_address = codes "ricochet:abcdefghij234567"

plain_host_round_trip_example :
    (plain_host_from_address (address_from_plain_host plain).0 ≡ (plain, true))
    × (plain_host_from_onion (onion_from_plain_host plain).0 ≡ (plain, true))
plain_host_round_trip_example =
    plain_host_round_trip plain (unfold is_plain_host_valid bytes_eq in refl)

address_round_trip_example :
    (address_from_plain_host (plain_host_from_address ricochet_address).0
      ≡ (ricochet_address, true))
    × (address_from_onion (onion_from_address ricochet_address).0 ≡ (ricochet_address, true))
address_round_trip_example =
    address_round_trip ricochet_address (unfold is_address_valid bytes_eq in refl)
