-- ===== src/Core/Network/Socks/Choice.antt =====
-- Which SOCKS port core/network.go chooses.
use ricochet_go.Common.{
  ℕ, suc, ◌≤◌, ◌<◌, ltb, Bool, true, false, not, ◌&&◌, ◌||◌, Option, none, some, List, [], ◌∷◌,
  ◌++◌, append_assoc, append-nil, Bytes, bytes_eq, length, ◌==◌, if◌then◌else◌, All, All-append,
  All-map, ◌≡◌, ◌≢◌, ◌⊎◌, inl, inr, refl, subst, sym, ap, ◌∙◌, arith, Bool-cases,
}
use ricochet_go.Core.Network.Socks.{
  Ip, SocksAddress, SocksError, no_socks_port, no_valid_socks, unix, no_address, ip_equal,
  is_loopback, is_unspecified, preferred_to, is_valid, tor_on_localhost, control_ip, parse_socks,
  consider, select_socks, choose_socks_address,
}

-- The order of preference: unix sockets, the host of the control port, loopback, all others.
abbrev pub rank : Ip → SocksAddress → ℕ
rank preferred sa =
    if bytes_eq sa.network unix
    then 0
    else if not (is_unspecified preferred) && ip_equal sa.ip preferred
    then 1
    else if is_loopback sa.ip
    then 2
    else 3

abbrev IsNamed : SocksAddress → Type 0
IsNamed sa = bytes_eq sa.network [] ≡ false

by_rank :
    (us uo unspecified es eo ls lo : Bool)
    → (if us || uo
        then not uo
        else if not unspecified && (es || eo)
        then not eo
        else if ls || lo
        then not lo
        else false)
      ≡ ltb
          (if us then 0 else if not unspecified && es then 1 else if ls then 2 else 3)
          (if uo then 0 else if not unspecified && eo then 1 else if lo then 2 else 3)
by_rank us uo unspecified es eo ls lo = ground arith

preferred_to-rank :
    (preferred : Ip) (sa other : SocksAddress)
    → IsNamed sa
    → IsNamed other
    → preferred_to sa other preferred ≡ ltb (rank preferred sa) (rank preferred other)
unfolding preferred_to
preferred_to-rank preferred sa other h k =
    rw (h, k)
      (by_rank (bytes_eq sa.network unix) (bytes_eq other.network unix) (is_unspecified preferred)
        (ip_equal sa.ip preferred) (ip_equal other.ip preferred) (is_loopback sa.ip)
        (is_loopback other.ip))

preferred_to_nothing :
    (preferred : Ip) (sa : SocksAddress) → preferred_to sa no_address preferred ≡ true
unfolding preferred_to bytes_eq
preferred_to_nothing preferred sa = ground arith

-- An address of the list before which all are worse, and behind which none is better.
abbrev pub IsFirstBest : Ip → List SocksAddress → SocksAddress → Type 0
IsFirstBest preferred list s =
    (before after : List SocksAddress) × (list ≡ before ++ s ∷ after)
    × All (λ x. rank preferred s < rank preferred x) before
    × All (λ x. rank preferred s ≤ rank preferred x) after

IsFirstBest-worse :
    (preferred : Ip) (list : List SocksAddress) (s x : SocksAddress)
    → IsFirstBest preferred list s
    → rank preferred x < rank preferred s
    → IsFirstBest preferred (list ++ x ∷ []) x
IsFirstBest-worse preferred list s x (before, after, e, worse, no_better) h = (
  list,
  [],
  refl,
  subst (All (λ y. rank preferred x < rank preferred y)) (sym e) (
      All-append (λ y. rank preferred x < rank preferred y) before (s ∷ after)
        (All-map (λ y. rank preferred s < rank preferred y) (λ y p. omega (arith, h, p)) before
          worse)
        (
          h,
          All-map (λ y. rank preferred s ≤ rank preferred y) (λ y p. omega (arith, h, p)) after
              no_better,
        )),
  tt,
)

IsFirstBest-kept :
    (preferred : Ip) (list : List SocksAddress) (s x : SocksAddress)
    → IsFirstBest preferred list s
    → rank preferred s ≤ rank preferred x
    → IsFirstBest preferred (list ++ x ∷ []) s
IsFirstBest-kept preferred list s x (before, after, e, worse, no_better) h = (
  before,
  after ++ x ∷ [],
  ap (λ l. l ++ x ∷ []) e ∙ append_assoc before (s ∷ after) (x ∷ []),
  worse,
  All-append (λ y. rank preferred s ≤ rank preferred y) after (x ∷ []) no_better (h, tt),
)

abbrev pub keep : Option SocksAddress → List SocksAddress → List SocksAddress
keep none list = list
keep (some socks) list = socks ∷ list

consider-IsFirstBest :
    (preferred : Ip) (o : Option SocksAddress) (seen : List SocksAddress) (s : SocksAddress)
    → ((x : SocksAddress) → o ≡ some x → IsNamed x)
    → IsNamed s
    → IsFirstBest preferred seen s
    → IsNamed (consider preferred o s)
      × IsFirstBest preferred (seen ++ keep o []) (consider preferred o s)
unfolding consider
consider-IsFirstBest preferred none seen s named s_named h = (s_named, rw append-nil h)
consider-IsFirstBest preferred (some x) seen s named s_named h =
    let decides = preferred_to-rank preferred x s (named x refl) s_named in
    elim (Bool-cases (preferred_to x s preferred)) [
      | inl better ↦
          rw better
            (named x refl, IsFirstBest-worse preferred seen s x h (ground (arith, decides, better)))
      | inr no_better ↦
          rw no_better
            (s_named, IsFirstBest-kept preferred seen s x h (ground (arith, decides, no_better)))
    ]

keep_append :
    (o : Option SocksAddress) (seen list : List SocksAddress)
    → (seen ++ keep o []) ++ list ≡ seen ++ keep o list
keep_append none seen list = rw append-nil
keep_append (some x) seen list = append_assoc seen (x ∷ []) list

module _ (split_host : Bytes → Option Bytes) (parse_ip : Bytes → Ip) where
  -- The addresses of the list that are not ignored.
  unfoldable pub candidates : Bytes → List Bytes → List SocksAddress
  candidates control_address [] = []
  candidates control_address (addr ∷ rest) =
      keep
        (parse_socks split_host parse_ip (tor_on_localhost split_host parse_ip control_address)
          addr)
        (candidates control_address rest)

  parse_socks-IsNamed :
      (on_localhost : Bool) (addr : Bytes) (socks : SocksAddress)
      → parse_socks split_host parse_ip on_localhost addr ≡ some socks
      → IsNamed socks
  unfolding parse_socks bytes_eq
  parse_socks-IsNamed on_localhost addr socks h = ground arith

  select_socks-IsFirstBest :
      (control_address : Bytes) (addresses : List Bytes) (seen : List SocksAddress)
      (s : SocksAddress)
      → IsNamed s
      → IsFirstBest (control_ip split_host parse_ip control_address) seen s
      → IsNamed (select_socks split_host parse_ip control_address addresses s)
        × IsFirstBest
            (control_ip split_host parse_ip control_address)
            (seen ++ candidates control_address addresses)
            (select_socks split_host parse_ip control_address addresses s)
  unfolding select_socks candidates
  select_socks-IsFirstBest control_address [] seen s named h = (named, rw append-nil h)
  select_socks-IsFirstBest control_address (addr ∷ rest) seen s named h =
      let preferred = control_ip split_host parse_ip control_address in
      let on_localhost = tor_on_localhost split_host parse_ip control_address in
      let o = parse_socks split_host parse_ip on_localhost addr in
      let (s_named, h') =
        consider-IsFirstBest preferred o seen s (parse_socks-IsNamed on_localhost addr) named h in
      subst
        (λ l.
          IsNamed (select_socks split_host parse_ip control_address rest (consider preferred o s))
          × IsFirstBest preferred l
              (select_socks split_host parse_ip control_address rest (consider preferred o s)))
        (keep_append o seen (candidates control_address rest))
        (select_socks-IsFirstBest control_address rest (seen ++ keep o []) (consider preferred o s)
          s_named h')

  -- The answer for the list of candidates: an error where there are none, else the first of the
  -- best, which is an error if it is a unix socket with an empty path.
  abbrev pub IsBestChoice :
      Ip → List Bytes → List SocksAddress → SocksAddress × Option SocksError → Type 0
  IsBestChoice preferred addresses list answer =
      ((list ≡ [])
        × (answer
            ≡ (no_address, some (if length addresses == 0 then no_socks_port else no_valid_socks))))
      ⊎ ((list ≢ [])
          × IsFirstBest preferred list answer.0
          × (answer.1 ≡ (if bytes_eq answer.0.address [] then some no_valid_socks else none)))

  IsFirstBest-nonempty :
      (preferred : Ip) (list : List SocksAddress) (s : SocksAddress)
      → IsFirstBest preferred list s
      → list ≢ []
  IsFirstBest-nonempty preferred list s ([], after, e, h, h') k =
      let p : [] ≡ s ∷ after = sym k ∙ e in cc
  IsFirstBest-nonempty preferred list s (x ∷ before, after, e, h, h') k =
      let p : [] ≡ x ∷ (before ++ s ∷ after) = sym k ∙ e in cc

  -- The selection from nothing: nothing while all are ignored, then the first of the best.
  IsSelected : Ip → List SocksAddress → SocksAddress → Type 0
  IsSelected preferred list s =
      ((list ≡ []) × (s ≡ no_address)) ⊎ (IsNamed s × IsFirstBest preferred list s)

  first-IsSelected :
      (control_address : Bytes) (addresses : List Bytes)
      → IsSelected
          (control_ip split_host parse_ip control_address)
          (candidates control_address addresses)
          (select_socks split_host parse_ip control_address addresses no_address)
  unfolding select_socks candidates IsSelected
  first-IsSelected control_address [] = inl (refl, refl)
  first-IsSelected control_address (addr ∷ rest) =
      go
        (parse_socks split_host parse_ip (tor_on_localhost split_host parse_ip control_address)
          addr)
        (parse_socks-IsNamed (tor_on_localhost split_host parse_ip control_address) addr)
        (first-IsSelected control_address rest)
    where
      go :
          (o : Option SocksAddress)
          → ((x : SocksAddress) → o ≡ some x → IsNamed x)
          → IsSelected
              (control_ip split_host parse_ip control_address)
              (candidates control_address rest)
              (select_socks split_host parse_ip control_address rest no_address)
          → IsSelected
              (control_ip split_host parse_ip control_address)
              (keep o (candidates control_address rest))
              (select_socks split_host parse_ip control_address rest
                (consider (control_ip split_host parse_ip control_address) o no_address))
      go none named later = unfold consider in later
      go (some x) named later =
          let p = preferred_to_nothing (control_ip split_host parse_ip control_address) x in
          unfold consider in
          rw p (
            inr (
              select_socks-IsFirstBest control_address rest (x ∷ []) x (named x refl)
                ([], [], refl, tt, tt)))

  not_empty : (n : ℕ) → (suc n == 0) ≡ false
  not_empty n = ground arith

  answer : SocksAddress → SocksAddress × Option SocksError
  answer s =
      (s, if bytes_eq s.network [] || bytes_eq s.address [] then some no_valid_socks else none)

  choose_socks_address-answer :
      (addr : Bytes) (rest : List Bytes) (control_address : Bytes)
      → choose_socks_address split_host parse_ip (addr ∷ rest) control_address
        ≡ answer (select_socks split_host parse_ip control_address (addr ∷ rest) no_address)
  unfolding choose_socks_address is_valid answer
  choose_socks_address-answer addr rest control_address =
      rw (not_empty (length rest))
        (go (select_socks split_host parse_ip control_address (addr ∷ rest) no_address))
    where
      go :
          (s : SocksAddress)
          → ◌≡◌ {A = SocksAddress × Option SocksError}
              (if not (is_valid s) then (s, some no_valid_socks) else (s, none))
              (answer s)
      go s = ground arith

  -- The SOCKS address chosen is the first of the most preferred ones among those that are not ignored:
  -- a unix socket, the host of the control port, a loopback address, any other. The choice is an error
  -- when all are ignored, and when the one chosen is a unix socket with an empty path.
  pub choose_socks_address-IsBestChoice :
      (addresses : List Bytes) (control_address : Bytes)
      → IsBestChoice
          (control_ip split_host parse_ip control_address)
          addresses
          (candidates control_address addresses)
          (choose_socks_address split_host parse_ip addresses control_address)
  unfolding IsSelected
  choose_socks_address-IsBestChoice [] control_address = inl (
    unfold candidates in refl,
    unfold choose_socks_address select_socks is_valid bytes_eq in refl,
  )
  choose_socks_address-IsBestChoice (addr ∷ rest) control_address =
      go (first-IsSelected control_address (addr ∷ rest))
    where
      go :
          IsSelected
            (control_ip split_host parse_ip control_address)
            (candidates control_address (addr ∷ rest))
            (select_socks split_host parse_ip control_address (addr ∷ rest) no_address)
          → IsBestChoice
              (control_ip split_host parse_ip control_address)
              (addr ∷ rest)
              (candidates control_address (addr ∷ rest))
              (choose_socks_address split_host parse_ip (addr ∷ rest) control_address)
      go (inl (empty, e)) = inl (
        empty,
        rw (choose_socks_address-answer addr rest control_address, e)
            (unfold answer bytes_eq in rw (not_empty (length rest)) refl),
      )
      go (inr (named, best)) =
          let preferred = control_ip split_host parse_ip control_address in
          let list = candidates control_address (addr ∷ rest) in
          let s = select_socks split_host parse_ip control_address (addr ∷ rest) no_address in
          rw (choose_socks_address-answer addr rest control_address) (
            inr (
              IsFirstBest-nonempty preferred list s best,
              unfold answer in best,
              unfold answer in rw named refl,
            ))
