-- ===== src/Core/Address/RoundTrip.antt =====
-- The conversions of core/address.go undo one another.
use ricochet_go.Common.{
  has_suffix-append, Bool-cases, inl, inr, ◌≡◌, true, Bytes, take, drop, length, ◌++◌, ◌-◌, arith,
  ap, sym, ◌∙◌, has_prefix, has_prefix→eq, has_suffix, bytes_eq_iff, bytes_eq, length-append,
  take-append-drop, take-append_left, ==_iff, ◌==◌,
}
use ricochet_go.Core.Address.{
  scheme, onion_suffix, is_address_valid, is_onion_valid, is_plain_host_valid, address_from_onion,
  onion_from_address, onion_from_plain_host, plain_host_from_onion, address_from_plain_host,
  plain_host_from_address,
}

is_address_valid-append : (h : Bytes) → is_address_valid (scheme ++ h) ≡ is_plain_host_valid h
unfolding is_address_valid is_plain_host_valid has_prefix bytes_eq
is_address_valid-append h = ground arith

pub split_address : (a : Bytes) → is_address_valid a ≡ true → scheme ++ drop 9 a ≡ a
unfolding is_address_valid
split_address a v = has_prefix→eq a scheme (ground arith)

onion_suffix_split : (o : Bytes) → is_onion_valid o ≡ true → take 16 o ++ onion_suffix ≡ o
unfolding is_onion_valid has_suffix
onion_suffix_split o v =
    let n : length o ≡ 22 = ground arith in
    let e : drop 16 o ≡ onion_suffix =
      ground (arith, bytes_eq_iff (drop (length o - 6) o) onion_suffix) in
    rw e at (take-append-drop 16 o)

onion_head : (h : Bytes) → length h ≡ 16 → take 16 (h ++ onion_suffix) ≡ h
onion_head h n = rw n at (take-append_left h onion_suffix)

onion_length : (h : Bytes) → (length (h ++ onion_suffix) == 22) ≡ (length h == 16)
onion_length h = ground (arith, length-append h onion_suffix)

is_onion_valid-append : (h : Bytes) → is_onion_valid (h ++ onion_suffix) ≡ is_plain_host_valid h
unfolding is_onion_valid is_plain_host_valid
is_onion_valid-append h = elim (Bool-cases (length h == 16)) [
  | inl e ↦ rw (
    onion_length h,
    e,
    onion_head h ((==_iff (length h) 16).0 e),
    has_suffix-append h onion_suffix,
  )
  | inr e ↦ rw (onion_length h, e)
]

take_plain : (h : Bytes) → is_plain_host_valid h ≡ true → take 16 (h ++ onion_suffix) ≡ h
unfolding is_plain_host_valid
take_plain h v = onion_head h (ground arith)

pub plain_of_address :
    (a : Bytes) → is_address_valid a ≡ true → is_plain_host_valid (drop 9 a) ≡ true
plain_of_address a v =
    sym (is_address_valid-append (drop 9 a)) ∙ ap is_address_valid (split_address a v) ∙ v

plain_of_onion : (o : Bytes) → is_onion_valid o ≡ true → is_plain_host_valid (take 16 o) ≡ true
plain_of_onion o v =
    sym (is_onion_valid-append (take 16 o)) ∙ ap is_onion_valid (onion_suffix_split o v) ∙ v

-- A valid plain host survives the way to an address and back, and the way to an onion hostname and
-- back.
pub plain_host_round_trip :
    (h : Bytes)
    → is_plain_host_valid h ≡ true
    → (plain_host_from_address (address_from_plain_host h).0 ≡ (h, true))
      × (plain_host_from_onion (onion_from_plain_host h).0 ≡ (h, true))
unfolding plain_host_from_address address_from_plain_host plain_host_from_onion
    onion_from_plain_host
plain_host_round_trip h v = rw v (
  ground (arith, is_address_valid-append h, v),
  ground (arith, is_onion_valid-append h, take_plain h v),
)

-- A valid address survives the way to a plain host and back, and the way to an onion hostname and
-- back.
pub address_round_trip :
    (a : Bytes)
    → is_address_valid a ≡ true
    → (address_from_plain_host (plain_host_from_address a).0 ≡ (a, true))
      × (address_from_onion (onion_from_address a).0 ≡ (a, true))
unfolding plain_host_from_address address_from_plain_host address_from_onion onion_from_address
address_round_trip a v = rw v (
  ground (arith, plain_of_address a v, split_address a v),
  ground (
    arith,
    plain_of_address a v,
    split_address a v,
    is_onion_valid-append (drop 9 a),
    take_plain (drop 9 a),
  ),
)

-- A valid onion hostname survives the way to an address and back, and the way to a plain host and
-- back.
pub onion_round_trip :
    (o : Bytes)
    → is_onion_valid o ≡ true
    → (onion_from_address (address_from_onion o).0 ≡ (o, true))
      × (onion_from_plain_host (plain_host_from_onion o).0 ≡ (o, true))
unfolding onion_from_address address_from_onion onion_from_plain_host plain_host_from_onion
onion_round_trip o v = rw v (
  ground (arith, plain_of_onion o v, onion_suffix_split o v, is_address_valid-append (take 16 o)),
  ground (arith, plain_of_onion o v, onion_suffix_split o v),
)

-- Going through the plain host or directly to the onion hostname gives the same result and the same
-- flag, for every text, valid or not; likewise from an onion hostname to an address.
pub conversions_commute :
    (s : Bytes)
    → (onion_from_plain_host (plain_host_from_address s).0 ≡ onion_from_address s)
      × (address_from_plain_host (plain_host_from_onion s).0 ≡ address_from_onion s)
unfolding onion_from_plain_host plain_host_from_address onion_from_address address_from_plain_host
    plain_host_from_onion address_from_onion is_plain_host_valid
conversions_commute s = (
  ground (arith, plain_of_address s),
  elim (Bool-cases (is_onion_valid s)) [
    | inl v ↦ rw (v, plain_of_onion s v)
    | inr v ↦ rw v (ground arith)
  ],
)
