-- ===== src/Cli/Prefixes/Separation.antt =====
-- ricochet-cli/ui.go: the loops of `PrefixForAddress` end, with a prefix that no other host has.
use ricochet_go.Common.{
  ℕ, zero, suc, ◌+◌, ◌≤◌, ◌<◌, ◌≡◌, ◌≢◌, ◌⊎◌, inl, inr, refl, sym, ap, ◌∙◌, true, false, ◌&&◌,
  Option, some, List, [], ◌∷◌, ◌++◌, Bytes, bytes_eq, bytes_eq_iff, length, take, drop, length-take,
  take-all, ltb, le→leb, lt→ltb, All, arith, Bool-cases,
}
use ricochet_go.Core.Address.{
  scheme, is_address_valid, is_plain_host_valid, plain_host_from_address,
}
use ricochet_go.Core.Address.RoundTrip.{split_address, plain_of_address}
use ricochet_go.Cli.Prefixes.{slice, host_of, lengthen, separate}

-- The hosts of valid addresses have 16 bytes, and determine the addresses.
host_of_valid : (a : Bytes) → is_address_valid a ≡ true → host_of a ≡ drop 9 a
unfolding plain_host_from_address
host_of_valid a v = rw (v, host_of)

pub length-host_of : (a : Bytes) → is_address_valid a ≡ true → length (host_of a) ≡ 16
length-host_of a v =
    let p = plain_of_address a v in
    ap length (host_of_valid a v) ∙ unfold is_plain_host_valid in ground arith

pub host_of_injective :
    (a b : Bytes)
    → is_address_valid a ≡ true
    → is_address_valid b ≡ true
    → host_of a ≡ host_of b
    → a ≡ b
host_of_injective a b v w e =
    sym (split_address a v)
    ∙ ap (λ h. scheme ++ h) (sym (host_of_valid a v) ∙ e ∙ host_of_valid b w)
    ∙ split_address b w

-- Two texts that differ within `k` bytes differ within more.
pub differ_later :
    (x y : Bytes) (k m : ℕ)
    → k ≤ m
    → bytes_eq (take k x) (take k y) ≡ false
    → bytes_eq (take m x) (take m y) ≡ false
unfolding bytes_eq
differ_later x y zero m le h = cc
differ_later [] [] (suc k) m le h = cc
differ_later x y (suc k) zero le h = absurd (omega arith)
differ_later [] (y ∷ t) (suc k) (suc m) le h = refl
differ_later (x ∷ s) [] (suc k) (suc m) le h = refl
differ_later (x ∷ s) (y ∷ t) (suc k) (suc m) le h = ground (arith, differ_later s t k m)

pub length_prefix : (host : Bytes) (k : ℕ) → k ≤ length host → length (take k host) ≡ k
length_prefix host k le = omega (arith, length-take k host)

pub slice_at : (s : Bytes) (k : ℕ) → k ≤ length s → slice s k ≡ some (take k s)
unfolding slice
slice_at s k le = rw (le→leb k (length s) le)

lengthen_by :
    (fuel : ℕ) (host other prefix start longer : Bytes)
    → slice other (length prefix) ≡ some start
    → (bytes_eq prefix start && ltb (length prefix) (length host)) ≡ true
    → slice host (length prefix + 1) ≡ some longer
    → lengthen (suc fuel) host other prefix ≡ lengthen fuel host other longer
unfolding lengthen
lengthen_by fuel host other prefix start longer a b c = rw (a, lengthen, b, c)

lengthen_round :
    (fuel : ℕ) (host other : Bytes) (k : ℕ)
    → length other ≡ length host
    → k ≤ length host
    → bytes_eq (take k host) (take k other) ≡ true
    → k < length host
    → lengthen (suc fuel) host other (take k host) ≡ lengthen fuel host other (take (k + 1) host)
unfolding lengthen
lengthen_round fuel host other k n le e lt =
    let there = length_prefix host k le in
    lengthen_by fuel host other (take k host) (take k other) (take (k + 1) host)
      (ap (slice other) there ∙ slice_at other k (omega arith))
      (rw e (ap (λ i. ltb i (length host)) there ∙ lt→ltb k (length host) lt))
      (ap (λ i. slice host (i + 1)) there ∙ slice_at host (k + 1) (omega arith))

lengthen_end :
    (fuel : ℕ) (host other : Bytes) (k : ℕ)
    → length other ≡ length host
    → k ≤ length host
    → bytes_eq (take k host) (take k other) ≡ false
    → lengthen (suc fuel) host other (take k host) ≡ some (take k host)
unfolding lengthen
lengthen_end fuel host other k n le e =
    rw (lengthen, length_prefix host k le, slice_at other k (omega arith), e)

-- The prefix of length `m` is long enough against the other host.
abbrev pub Differs : Bytes → ℕ → Bytes → Type 0
Differs host m other = bytes_eq (take m host) (take m other) ≡ false

-- A loop that starts with the prefix of length `k` has ended.
abbrev pub Ended : Bytes → ℕ → (ℕ → Type 0) → Option Bytes → Type 0
Ended host k Q r = (m : ℕ) × (r ≡ some (take m host)) × (k ≤ m) × (m ≤ length host) × Q m

lengthen_ends :
    (fuel : ℕ) (host other : Bytes) (k : ℕ)
    → length other ≡ length host
    → host ≢ other
    → k ≤ length host
    → length host < fuel + k
    → Ended host k (λ m. Differs host m other) (lengthen fuel host other (take k host))
lengthen_ends zero host other k n d le fits = absurd (omega arith)
lengthen_ends (suc fuel) host other k n d le fits =
    elim (Bool-cases (bytes_eq (take k host) (take k other))) [
      | inr e ↦ (k, lengthen_end fuel host other k n le e, omega arith, le, e)
      | inl e ↦ elim (Bool-cases (ltb k (length host))) [
        | inl lt ↦
            let (m, r, low, high, q) =
              lengthen_ends fuel host other (k + 1) n d (ground arith) (omega arith) in
            (m, lengthen_round fuel host other k n le e (ground arith) ∙ r, omega arith, high, q)
        | inr ge ↦
            let whole : length host ≤ k = ground arith in
            absurd (
              d (
                sym (take-all k host whole)
                ∙ (bytes_eq_iff _ _).0 e
                ∙ take-all k other (omega arith)))
      ]
    ]

-- The address is the one that is named, or its host differs within the prefix.
abbrev pub IsApart : Bytes → ℕ → Bytes → Type 0
IsApart host m address = (host_of address ≡ host) ⊎ Differs host m (host_of address)

pub separate_ends :
    (host : Bytes) (addresses : List Bytes) (k : ℕ)
    → All (λ a. length (host_of a) ≡ length host) addresses
    → k ≤ length host
    → Ended host k (λ m. All (IsApart host m) addresses) (separate host addresses (take k host))
unfolding separate
separate_ends host [] k v le = (k, refl, omega arith, le, tt)
separate_ends host (a ∷ rest) k (n, v) le = elim (Bool-cases (bytes_eq (host_of a) host)) [
  | inl e ↦
      let (m, r, low, high, q) = separate_ends host rest k v le in
      (m, rw (separate, e) r, low, high, (inl ((bytes_eq_iff (host_of a) host).0 e), q))
  | inr e ↦
      let d : host ≢ host_of a = λ p. (ground (arith, e, bytes_eq_iff (host_of a) host)) in
      let (m, r, low, high, q) =
        lengthen_ends (suc (length host)) host (host_of a) k n d le (omega arith) in
      let (m', r', low', high', q') = separate_ends host rest m v high in
      (
        m',
        rw (separate, e, r) r',
        omega arith,
        high',
        (inr (differ_later host (host_of a) m m' low' q), q'),
      )
]
