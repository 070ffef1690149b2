-- ===== src/Cli/Prefixes/RoundTrip.antt =====
-- ricochet-cli/ui.go: the prefix that is shown for an address names it again.
use ricochet_go.Common.{
  ℕ, ◌≤◌, ◌≡◌, ◌≢◌, inl, inr, refl, sym, ap, ◌∙◌, true, false, ◌||◌, Option, none, some, append-nil,
  List, [], ◌∷◌, ◌++◌, Bytes, bytes_eq, bytes_eq_refl, length, take, ltb, All, All-split, All-map,
  arith,
}
use ricochet_go.Core.Address.{is_address_valid}
use ricochet_go.Cli.Prefixes.{
  min_contact_prefix, slice, host_of, prefix_for_address, matches, find_one, find_request,
  entity_by_prefix,
}
use ricochet_go.Cli.Prefixes.Separation.{
  length-host_of, host_of_injective, slice_at, length_prefix, differ_later, IsApart, separate_ends,
}

abbrev pub IsValid : Bytes → Type 0
IsValid a = is_address_valid a ≡ true

same_lengths :
    (a : Bytes) (bs : List Bytes)
    → IsValid a
    → All IsValid bs
    → All (λ b. length (host_of b) ≡ length (host_of a)) bs
same_lengths a bs v vs =
    All-map IsValid (λ b w. length-host_of b w ∙ sym (length-host_of a v)) bs vs

matches_at :
    (a b : Bytes) (m : ℕ)
    → m ≤ length (host_of a)
    → length (host_of b) ≡ length (host_of a)
    → matches (take m (host_of a)) b ≡ some (bytes_eq (take m (host_of a)) (take m (host_of b)))
unfolding matches
matches_at a b m le n =
    let cut =
      ap (slice (host_of b)) (length_prefix (host_of a) m le)
      ∙ slice_at (host_of b) m (omega arith) in
    rw (cut, matches)

matches_self :
    (a : Bytes) (m : ℕ) → m ≤ length (host_of a) → matches (take m (host_of a)) a ≡ some true
matches_self a m le = matches_at a a m le refl ∙ ap some (bytes_eq_refl _)

-- An address that the prefix does not name.
abbrev Skipped : Bytes → Bytes → Type 0
Skipped prefix b = matches prefix b ≡ some false

skipped :
    (a : Bytes) (m : ℕ) (bs : List Bytes)
    → IsValid a
    → m ≤ length (host_of a)
    → All IsValid bs
    → All (λ b. b ≢ a) bs
    → All (IsApart (host_of a) m) bs
    → All (Skipped (take m (host_of a))) bs
skipped a m [] v le vs ds hs = tt
skipped a m (b ∷ bs) v le (w, vs) (d, ds) (h, hs) = (first h, skipped a m bs v le vs ds hs)
  where
    first : IsApart (host_of a) m b → Skipped (take m (host_of a)) b
    first (inl e) = absurd (d (host_of_injective b a w v e))
    first (inr e) = matches_at a b m le (length-host_of b w ∙ sym (length-host_of a v)) ∙ ap some e

find_one-Skipped :
    (prefix : Bytes) (bs rest : List Bytes) (found : Option Bytes)
    → All (Skipped prefix) bs
    → find_one prefix (bs ++ rest) found ≡ find_one prefix rest found
unfolding find_one
find_one-Skipped prefix [] rest found h = refl
find_one-Skipped prefix (b ∷ bs) rest found (h, hs) =
    rw (h, find_one) (find_one-Skipped prefix bs rest found hs)

find_request-Skipped :
    (prefix : Bytes) (contact : Option Bytes) (bs rest : List Bytes) (found : Option Bytes)
    → All (Skipped prefix) bs
    → find_request prefix contact (bs ++ rest) found ≡ find_request prefix contact rest found
unfolding find_request
find_request-Skipped prefix contact [] rest found h = refl
find_request-Skipped prefix contact (b ∷ bs) rest found (h, hs) =
    rw (h, find_request) (find_request-Skipped prefix contact bs rest found hs)

-- What `PrefixForAddress` returns.
abbrev Prefix : Bytes → List Bytes → List Bytes → ℕ → Type 0
Prefix a contacts requests m =
    (prefix_for_address contacts requests a ≡ some (take m (host_of a)))
    × (3 ≤ m)
    × (m ≤ 16)
    × All (IsApart (host_of a) m) contacts
    × All (IsApart (host_of a) m) requests

IsApart-later :
    (host : Bytes) (k m : ℕ) (bs : List Bytes)
    → k ≤ m
    → All (IsApart host k) bs
    → All (IsApart host m) bs
IsApart-later host k m bs le h = All-map (IsApart host k) (λ b. later b) bs h
  where
    later : (b : Bytes) → IsApart host k b → IsApart host m b
    later b (inl e) = inl e
    later b (inr d) = inr (differ_later host (host_of b) k m le d)

prefix_for_address_ends :
    (a : Bytes) (contacts requests : List Bytes)
    → IsValid a
    → All IsValid contacts
    → All IsValid requests
    → (m : ℕ) × Prefix a contacts requests m
unfolding prefix_for_address
prefix_for_address_ends a contacts requests v cs rs =
    let n = length-host_of a v in
    let (k, e, low, high, q) =
      separate_ends (host_of a) contacts 3 (same_lengths a contacts v cs) (omega (arith, n)) in
    let (m, e', low', high', q') =
      separate_ends (host_of a) requests k (same_lengths a requests v rs) high in
    (
      m,
      (
        rw (slice_at (host_of a) 3 (omega (arith, n)), prefix_for_address, e, e'),
        omega (arith, low, low'),
        omega (arith, high', n),
        IsApart-later (host_of a) k m contacts low' q,
        q',
      ),
    )

-- `EntityByPrefix` takes a prefix of this length.
entity_by_prefix_starts :
    (contacts requests : List Bytes) (prefix : Bytes)
    → 3 ≤ length prefix
    → length prefix ≤ 16
    → entity_by_prefix contacts requests prefix ≡ elim (find_one prefix contacts none) [
      | none ↦ none
      | some none ↦ some (none, none)
      | some (some contact) ↦ find_request prefix contact requests none
    ]
unfolding entity_by_prefix
entity_by_prefix_starts contacts requests prefix low high =
    let inside : (ltb (length prefix) min_contact_prefix || ltb 16 (length prefix)) ≡ false =
      ground arith in
    rw inside

module _ (a : Bytes) (pre post : List Bytes) where
  found_only :
      (prefix : Bytes)
      → matches prefix a ≡ some true
      → All (Skipped prefix) pre
      → All (Skipped prefix) post
      → find_one prefix (pre ++ a ∷ post) none ≡ some (some (some a))
  unfolding find_one
  found_only prefix h hpre hpost =
      find_one-Skipped prefix pre (a ∷ post) none hpre
      ∙ rw (h, find_one)
          (ap (λ l. find_one prefix l (some a)) (sym (append-nil post))
            ∙ find_one-Skipped prefix post [] (some a) hpost)

  requested_only :
      (prefix : Bytes)
      → matches prefix a ≡ some true
      → All (Skipped prefix) pre
      → All (Skipped prefix) post
      → find_request prefix none (pre ++ a ∷ post) none ≡ some (none, some a)
  unfolding find_request
  requested_only prefix h hpre hpost =
      find_request-Skipped prefix none pre (a ∷ post) none hpre
      ∙ rw (h, find_request)
          (ap (λ l. find_request prefix none l (some a)) (sym (append-nil post))
            ∙ find_request-Skipped prefix none post [] (some a) hpost)

none_found :
    (prefix : Bytes) (bs : List Bytes)
    → All (Skipped prefix) bs
    → find_one prefix bs none ≡ some (some none)
unfolding find_one
none_found prefix bs h =
    ap (λ l. find_one prefix l none) (sym (append-nil bs)) ∙ find_one-Skipped prefix bs [] none h

none_requested :
    (prefix : Bytes) (contact : Option Bytes) (bs : List Bytes)
    → All (Skipped prefix) bs
    → find_request prefix contact bs none ≡ some (contact, none)
unfolding find_request
none_requested prefix contact bs h =
    ap (λ l. find_request prefix contact l none) (sym (append-nil bs))
    ∙ find_request-Skipped prefix contact bs [] none h

abbrev pub IsAbsent : Bytes → List Bytes → Type 0
IsAbsent a bs = All (λ b. b ≢ a) bs

-- The prefix that is shown for an address names that entity, and no other.
abbrev pub Identifies : List Bytes → List Bytes → Bytes → Option Bytes × Option Bytes → Type 0
Identifies contacts requests a entity =
    (prefix : Bytes) × (prefix_for_address contacts requests a ≡ some prefix)
    × (entity_by_prefix contacts requests prefix ≡ some entity)

-- With valid addresses, the address of a contact, which is listed once and has no request, has a
-- prefix, and that prefix names the contact: no slice is out of range, the loops end, and the prefix is
-- not ambiguous.
pub prefix_names_contact :
    (a : Bytes) (pre post requests : List Bytes)
    → IsValid a
    → All IsValid (pre ++ a ∷ post)
    → All IsValid requests
    → IsAbsent a pre
    → IsAbsent a post
    → IsAbsent a requests
    → Identifies (pre ++ a ∷ post) requests a (some a, none)
prefix_names_contact a pre post requests v cs rs dpre dpost dr =
    let (m, (e, low, high, hc, hr)) =
      prefix_for_address_ends a (pre ++ a ∷ post) requests v cs rs in
    let le : m ≤ length (host_of a) = omega (arith, length-host_of a v) in
    let (vpre, (_, vpost)) = All-split IsValid pre (a ∷ post) cs in
    let (hpre, (_, hpost)) = All-split (IsApart (host_of a) m) pre (a ∷ post) hc in
    let p = take m (host_of a) in
    let size = length_prefix (host_of a) m le in
    let one =
      found_only a pre post p (matches_self a m le) (skipped a m pre v le vpre dpre hpre)
        (skipped a m post v le vpost dpost hpost) in
    (
      p,
      e,
      entity_by_prefix_starts (pre ++ a ∷ post) requests p (omega (arith, size))
            (omega (arith, size))
          ∙ rw one (none_requested p (some a) requests (skipped a m requests v le rs dr hr)),
    )

-- The same for a request, which is listed once and has no contact.
pub prefix_names_request :
    (a : Bytes) (contacts pre post : List Bytes)
    → IsValid a
    → All IsValid contacts
    → All IsValid (pre ++ a ∷ post)
    → IsAbsent a contacts
    → IsAbsent a pre
    → IsAbsent a post
    → Identifies contacts (pre ++ a ∷ post) a (none, some a)
prefix_names_request a contacts pre post v cs rs dc dpre dpost =
    let (m, (e, low, high, hc, hr)) =
      prefix_for_address_ends a contacts (pre ++ a ∷ post) v cs rs in
    let le : m ≤ length (host_of a) = omega (arith, length-host_of a v) in
    let (vpre, (_, vpost)) = All-split IsValid pre (a ∷ post) rs in
    let (hpre, (_, hpost)) = All-split (IsApart (host_of a) m) pre (a ∷ post) hr in
    let p = take m (host_of a) in
    let size = length_prefix (host_of a) m le in
    let one = none_found p contacts (skipped a m contacts v le cs dc hc) in
    (
      p,
      e,
      entity_by_prefix_starts contacts (pre ++ a ∷ post) p (omega (arith, size))
            (omega (arith, size))
          ∙ rw one (
              requested_only a pre post p (matches_self a m le)
                (skipped a m pre v le vpre dpre hpre) (skipped a m post v le vpost dpost hpost)),
    )
