-- ===== src/Core/Network/Socks/Tests.antt =====
-- core/network.go: a choice among the SOCKS ports of a local tor.
use ricochet_go.Common.{
  Bytes, List, codes, [], ◌∷◌, Option, none, some, take, if◌then◌else◌, bytes_eq, has_prefix, ◌≡◌,
  refl,
}
use ricochet_go.Core.Network.Socks.{
  Ip, control_ip, choose_socks_address, select_socks, consider, parse_socks, preferred_to,
  tor_on_localhost, is_loopback, is_unspecified, ip_equal, to4, is_valid,
}
use ricochet_go.Core.Network.Socks.Choice.{
  IsBestChoice, candidates, choose_socks_address-IsBestChoice,
}

abbrev split_host : Bytes → Option Bytes
split_host s = if has_prefix s (codes "127.0.0.1:") then some (take 9 s) else none

abbrev parse_ip : Bytes → Ip
parse_ip s = if bytes_eq s (codes "127.0.0.1") then 127 ∷ 0 ∷ 0 ∷ 1 ∷ [] else []

abbrev ports : List Bytes
ports = codes "nonsense" ∷ codes "127.0.0.1:9050" ∷ codes "127.0.0.1:9150" ∷ []

choose_socks_address-IsBestChoice_example :
    IsBestChoice split_host parse_ip
      (control_ip split_host parse_ip (codes "127.0.0.1:9051"))
      ports
      (candidates split_host parse_ip (codes "127.0.0.1:9051") ports)
      (choose_socks_address split_host parse_ip ports (codes "127.0.0.1:9051"))
choose_socks_address-IsBestChoice_example =
    choose_socks_address-IsBestChoice split_host parse_ip ports (codes "127.0.0.1:9051")

first_port :
    (choose_socks_address split_host parse_ip ports (codes "127.0.0.1:9051")).0.address
    ≡ codes "127.0.0.1:9050"
unfolding choose_socks_address select_socks consider parse_socks preferred_to tor_on_localhost
    control_ip is_loopback is_unspecified ip_equal to4 is_valid bytes_eq has_prefix
first_port = refl
