-- ===== src/Core/Network/Run.antt =====
-- core/network.go: the states that the loop `run` reaches, and the control events that come meanwhile.
use ricochet_go.Common.{ℕ, false, Option, none, List, Bytes, ◌≡◌}
use ricochet_go.Common.Exec.{done}
use ricochet_go.Core.Network.Socks.{Ip}
use ricochet_go.Core.Network.Control.{
  Network, create_network, set_control_address, set_control_password, start, stop, begin_attempt,
  on_stop, on_error, connect_control,
}
use ricochet_go.Core.Network.Query.{Tor}
use ricochet_go.Core.Network.Services.{
  on_control_event, add_onion_ports, OnionInfo, delete_onion_service,
}

-- Where the loop is: not running, before an attempt to connect, in one, or in its `select`.
pub data Phase : Type 0 where
  stopped starting attempting waiting : Phase

module _ (trim_space : Bytes → Bytes) (split_host : Bytes → Option Bytes)
    (parse_ip : Bytes → Ip) where
  -- A loop in its `select` may stop once `Stop` has been called, or see an error. The calls of other
  -- goroutines, and the events that are read from any connection, come in every phase.
  pub data IsReachable : Phase → Network → Type 0 where
    created : IsReachable stopped create_network
    starts :
        {n : Network}
        → IsReachable stopped n
        → (start n).1 ≡ none
        → IsReachable starting (start n).0
    begins : {n : Network} → IsReachable starting n → IsReachable attempting (begin_attempt n)
    attempts :
        {n : Network} (tor : Tor)
        → IsReachable attempting n
        → IsReachable waiting (connect_control trim_space split_host parse_ip tor n).0
    stops :
        {n : Network}
        → IsReachable waiting n
        → n.stop_signal ≡ false
        → IsReachable stopped (on_stop n)
    fails :
        {n : Network} (message : Bytes)
        → IsReachable waiting n
        → IsReachable starting (on_error message n)
    asks_stop : {p : Phase} {n : Network} → IsReachable p n → IsReachable p (stop n).0
    sets_address :
        {p : Phase} {n : Network} (a : Bytes)
        → IsReachable p n
        → IsReachable p (set_control_address a n).0
    sets_password :
        {p : Phase} {n : Network} (a : Bytes)
        → IsReachable p n
        → IsReachable p (set_control_password a n).0
    adds_onion :
        {p : Phase} {n : Network} (conn : ℕ) (answer : Option OnionInfo) (ports : List (ℕ × Bytes))
        (key : Option Bytes)
        → IsReachable p n
        → IsReachable p (add_onion_ports conn answer ports key n).0
    deletes_onion :
        {p : Phase} {n : Network} (id : Bytes)
        → IsReachable p n
        → IsReachable p (delete_onion_service id n)
    sees_event :
        {p : Phase} {n n' : Network} (reply : Bytes)
        → IsReachable p n
        → on_control_event reply n ≡ done tt n'
        → IsReachable p n'
