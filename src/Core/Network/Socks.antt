-- ===== src/Core/Network/Socks.antt =====
-- core/network.go, the choice of a SOCKS port: `socksAddress` and `chooseSocksAddress`.
-- An address of package net is its bytes: none, four or sixteen of them.
pub mod Choice
pub mod Tests
use ricochet_go.Common.{
  ℕ, Bool, true, false, not, ◌&&◌, ◌||◌, Option, none, some, List, [], ◌∷◌, ◌++◌, Bytes, codes,
  bytes_eq, length, take, drop, has_prefix, ◌==◌, if◌then◌else◌,
}

-- `net.IP`, with `Equal`, `IsLoopback` and `IsUnspecified`.
abbrev pub Ip : Type 0
Ip = List ℕ

abbrev pub v4_in_v6_prefix : Bytes
v4_in_v6_prefix = 0 ∷ 0 ∷ 0 ∷ 0 ∷ 0 ∷ 0 ∷ 0 ∷ 0 ∷ 0 ∷ 0 ∷ 255 ∷ 255 ∷ []

abbrev pub ipv6_unspecified : Ip
ipv6_unspecified = 0 ∷ 0 ∷ 0 ∷ 0 ∷ 0 ∷ 0 ∷ 0 ∷ 0 ∷ 0 ∷ 0 ∷ 0 ∷ 0 ∷ 0 ∷ 0 ∷ 0 ∷ 0 ∷ []

abbrev pub ipv6_loopback : Ip
ipv6_loopback = 0 ∷ 0 ∷ 0 ∷ 0 ∷ 0 ∷ 0 ∷ 0 ∷ 0 ∷ 0 ∷ 0 ∷ 0 ∷ 0 ∷ 0 ∷ 0 ∷ 0 ∷ 1 ∷ []

unfoldable pub ip_equal : Ip → Ip → Bool
ip_equal ip x =
    if length ip == length x
    then bytes_eq ip x
    else if length ip == 4 && length x == 16
    then bytes_eq (take 12 x) v4_in_v6_prefix && bytes_eq ip (drop 12 x)
    else if length ip == 16 && length x == 4
    then bytes_eq (take 12 ip) v4_in_v6_prefix && bytes_eq (drop 12 ip) x
    else false

-- `To4`: the four bytes of an IPv4 address in either form, or none.
unfoldable pub to4 : Ip → Ip
to4 ip =
    if length ip == 4
    then ip
    else if length ip == 16 && bytes_eq (take 12 ip) v4_in_v6_prefix
    then drop 12 ip
    else []

abbrev starts_with_127 : Ip → Bool
starts_with_127 [] = false
starts_with_127 (b ∷ _) = b == 127

unfoldable pub is_loopback : Ip → Bool
unfolding to4 ip_equal
is_loopback ip =
    if length (to4 ip) == 0 then ip_equal ip ipv6_loopback else starts_with_127 (to4 ip)

unfoldable pub is_unspecified : Ip → Bool
unfolding ip_equal
is_unspecified ip =
    ip_equal ip (v4_in_v6_prefix ++ 0 ∷ 0 ∷ 0 ∷ 0 ∷ []) || ip_equal ip ipv6_unspecified

abbrev pub unix : Bytes
unix = codes "unix"

abbrev pub tcp : Bytes
tcp = codes "tcp"

-- The zero value has empty fields.
pub record SocksAddress : Type 0 where
  pub network : Bytes
  pub address : Bytes
  pub ip : Ip

abbrev pub no_address : SocksAddress
no_address = record { network = []; address = []; ip = [] }

unfoldable pub is_valid : SocksAddress → Bool
is_valid sa = not (bytes_eq sa.network []) && not (bytes_eq sa.address [])

unfoldable pub preferred_to : SocksAddress → SocksAddress → Ip → Bool
unfolding is_unspecified is_loopback ip_equal
preferred_to sa other preferred_ip =
    if bytes_eq sa.network [] || bytes_eq other.network []
    then bytes_eq other.network []
    else if bytes_eq sa.network unix || bytes_eq other.network unix
    then not (bytes_eq other.network unix)
    else if not (is_unspecified preferred_ip)
        && (ip_equal sa.ip preferred_ip || ip_equal other.ip preferred_ip)
    then not (ip_equal other.ip preferred_ip)
    else if is_loopback sa.ip || is_loopback other.ip
    then not (is_loopback other.ip)
    else false

-- The comparison with the current selection; `none` is an address that is ignored.
unfoldable pub consider : Ip → Option SocksAddress → SocksAddress → SocksAddress
consider preferred_ip none selected = selected
consider preferred_ip (some socks) selected =
    if preferred_to socks selected preferred_ip then socks else selected

pub data SocksError : Type 0 where
  no_socks_port no_valid_socks : SocksError

abbrev pub is_unix_address : Bytes → Bool
is_unix_address addr = has_prefix addr (codes "unix:")

-- `net.SplitHostPort`'s host (`none`: an error) and `net.ParseIP` (nothing where it answers nil).
module _ (split_host : Bytes → Option Bytes) (parse_ip : Bytes → Ip) where
  -- The host is the empty string where the control address cannot be split.
  unfoldable pub control_ip : Bytes → Ip
  unfolding has_prefix
  control_ip control_address =
      if is_unix_address control_address
      then []
      else parse_ip (elim (split_host control_address) [ none ↦ [] | some host ↦ host ])

  unfoldable pub tor_on_localhost : Bytes → Bool
  unfolding control_ip is_loopback has_prefix
  tor_on_localhost control_address =
      is_unix_address control_address || is_loopback (control_ip control_address)

  -- One address of the list, unless it is ignored.
  unfoldable pub parse_socks : Bool → Bytes → Option SocksAddress
  unfolding is_loopback has_prefix
  parse_socks on_localhost addr =
      if is_unix_address addr
      then (if not on_localhost
          then none
          else some (record { network = unix; address = drop 5 addr; ip = [] }))
      else elim (split_host addr) [
        | none ↦ none
        | some host ↦
            if not on_localhost && is_loopback (parse_ip host)
            then none
            else some (record { network = tcp; address = addr; ip = parse_ip host })
      ]

  -- The loop, with the address selected so far.
  pub select_socks : Bytes → List Bytes → SocksAddress → SocksAddress
  unfolding tor_on_localhost control_ip parse_socks consider
  select_socks control_address [] selected = selected
  select_socks control_address (addr ∷ rest) selected = select_socks control_address rest (
      consider (control_ip control_address) (parse_socks (tor_on_localhost control_address) addr)
        selected)

  -- The address selected, which is returned along with an error too, and the error.
  unfoldable pub choose_socks_address : List Bytes → Bytes → SocksAddress × Option SocksError
  unfolding select_socks is_valid
  choose_socks_address addresses control_address =
      let selected = select_socks control_address addresses no_address in
      if length addresses == 0
      then (no_address, some no_socks_port)
      else if not (is_valid selected)
      then (selected, some no_valid_socks)
      else (selected, none)
