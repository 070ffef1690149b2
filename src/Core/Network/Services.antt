-- ===== src/Core/Network/Services.antt =====
-- core/network.go: what the rest of the program asks of `Network`, the control events, and the loop `run`.
use ricochet_go.Common.{
  ℕ, Bool, false, not, ◌&&◌, ◌||◌, Option, none, some, List, [], ◌∷◌, ◌++◌, codes, Bytes, bytes_eq,
  has_prefix, if◌then◌else◌,
}
use ricochet_go.Common.Exec.{Exec, done, fault}
use ricochet_go.Rpc.{TorConnectionStatus, TorConnectionState, is_ready}
use ricochet_go.Core.Network.Socks.{is_valid}
use ricochet_go.Core.Network.Control.{Network, OnionService, publish, add_onion, delete_onion}
use ricochet_go.Core.Network.Query.{split_n, join, contains, without_circuit}

-- `GetProxyDialer`: where the dialer that it makes connects to; `none` is an error.
unfoldable pub get_proxy_dialer : Network → Option (Bytes × Bytes)
unfolding is_valid
get_proxy_dialer n =
    let socks = n.socks_address in
    if not (is_valid socks) then none else some (socks.network, socks.address)

abbrev connection_is_ready : Option TorConnectionStatus → Bool
connection_is_ready none = false
connection_is_ready (some status) = is_ready status.status

-- One look at the state by `WaitForProxyDialer`, which waits for an event at `none`.
unfoldable pub proxy_dialer_if_ready : Network → Option (Bytes × Bytes)
unfolding is_valid
proxy_dialer_if_ready n =
    if connection_is_ready n.status.connection && is_valid n.socks_address
    then some (n.socks_address.network, n.socks_address.address)
    else none

pub record OnionInfo : Type 0 where
  pub onion_id : Bytes
  pub private_key : Option Bytes

-- `AddOnionPorts` on the connection that it has waited for, with tor's answer (`none`: an error). A key that
-- is `none` asks for a new one.
unfoldable pub add_onion_ports :
    ℕ → Option OnionInfo → List (ℕ × Bytes) → Option Bytes → Network → Network × Option OnionService
add_onion_ports conn answer ports key n =
    let asked = record n { trace = n.trace ++ add_onion conn ports key ∷ [] } in
    elim answer [
      | none ↦ (asked, none)
      | some info ↦
          let service : OnionService = record {
            onion_id = info.onion_id;
            ports = ports;
            private_key = elim info.private_key [ none ↦ key | some k ↦ some k ];
          } in
          (record asked { onions = n.onions ++ service ∷ [] }, some service)
    ]

-- The loop of `DeleteOnionService`: the first service with the name goes.
unfoldable pub remove_onion : Bytes → List OnionService → List OnionService
remove_onion onion_id [] = []
remove_onion onion_id (s ∷ rest) =
    let later = remove_onion onion_id rest in
    if bytes_eq s.onion_id onion_id then rest else s ∷ later

unfoldable pub delete_onion_service : Bytes → Network → Network
unfolding remove_onion
delete_onion_service onion_id n = record n {
  onions = remove_onion onion_id n.onions;
  trace = n.trace ++ elim n.conn [ none ↦ [] | some id ↦ delete_onion id onion_id ∷ [] ];
}

-- The change that an action of tor makes, with the event's parts behind the first.
unfoldable pub changed_by : Bytes → List Bytes → TorConnectionStatus → Option TorConnectionStatus
unfolding contains join
changed_by action info status =
    if bytes_eq action (codes "CIRCUIT_ESTABLISHED")
    then some (record status { status = TorConnectionState.ready })
    else if bytes_eq action (codes "CIRCUIT_NOT_ESTABLISHED")
    then some (record status { status = without_circuit status.bootstrap_progress })
    else if bytes_eq action (codes "BOOTSTRAP")
    then some (record status { bootstrap_progress = join info })
    else none

abbrev pub is_status_event : Bytes → Bool
is_status_event reply =
    has_prefix reply (codes "STATUS_CLIENT ") || has_prefix reply (codes "STATUS_GENERAL ")

unfoldable pub publish_change : Option TorConnectionStatus → Network → Network
publish_change none n = n
publish_change (some new) n =
    let status = record (n.status) { connection = some new } in
    record n { status = status; trace = n.trace ++ publish status ∷ [] }

-- The first clause is `*n.status.Connection` at nil.
unfoldable pub change_connection :
    Bytes → List Bytes → Option TorConnectionStatus → Network → Exec Network (Unit {0})
unfolding changed_by publish_change
change_connection action info none n = fault
change_connection action info (some old) n = done tt (publish_change (changed_by action info old) n)

unfoldable pub change_by_parts : List Bytes → Network → Exec Network (Unit {0})
unfolding change_connection
change_by_parts (type ∷ severity ∷ action ∷ arguments) n =
    change_connection action (severity ∷ action ∷ arguments) n.status.connection n
change_by_parts _ n = done tt n

-- One event in `handleControlEvents`.
unfoldable pub on_control_event : Bytes → Network → Exec Network (Unit {0})
unfolding change_by_parts split_n has_prefix
on_control_event reply n =
    if is_status_event reply then change_by_parts (split_n 4 b' ' [] reply) n else done tt n
