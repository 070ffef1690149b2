-- ===== src/Core/Network/Tests.antt =====
-- core/network.go: a network that is started, connected, and stopped.
use ricochet_go.Common.{
  Bytes, codes, [], ◌∷◌, Option, none, is_some, bytes_eq, has_prefix, ◌≡◌, ◌⊎◌, refl, true, false,
}
use ricochet_go.Common.Exec.{fault}
use ricochet_go.Core.Network.Socks.{Ip}
use ricochet_go.Core.Network.Control.{
  Network, create_network, set_control_address, start, stop, begin_attempt, on_stop,
  connect_control,
}
use ricochet_go.Core.Network.Query.{Tor, Result, split_n}
use ricochet_go.Core.Network.Services.{on_control_event}
use ricochet_go.Core.Network.Run.{
  IsReachable, waiting, created, starts, begins, attempts, stops, asks_stop, sets_address,
}
use ricochet_go.Core.Network.Connected.{
  is_connected, IsIdle, reachable-is_connected, on_control_event_stopped,
}

abbrev same : Bytes → Bytes
same s = s

abbrev no_host : Bytes → Option Bytes
no_host s = none

abbrev no_ip : Bytes → Ip
no_ip s = []

abbrev tor : Tor
tor = record {
  dial_error = none;
  authenticate_error = none;
  protocol_info = Result.ok (codes "0.2.9");
  set_events_error = none;
  get_info = Result.ok (codes "status/circuit-established=1" ∷ []);
}

set_up : Network
set_up = (set_control_address (codes "unix:/run/tor") create_network).0

running : Network
running = (connect_control same no_host no_ip tor (begin_attempt (start set_up).0)).0

set_up_starts : (start set_up).1 ≡ none
unfolding set_up start set_control_address create_network bytes_eq
set_up_starts = refl

is_running : IsReachable same no_host no_ip waiting running
unfolding running set_up
is_running =
    attempts tor (begins (starts (sets_address (codes "unix:/run/tor") created) set_up_starts))

stop_asked : (stop running).0.stop_signal ≡ false
stop_asked = unfold stop in refl

reachable-is_connected_example :
    (is_some running.conn ≡ is_connected running.status.control)
    × ((running.stopped_signal ≡ true) ⊎ IsIdle running)
    × ((running.conn ≡ none) ⊎ (is_some running.status.connection ≡ true))
reachable-is_connected_example =
    reachable-is_connected same no_host no_ip waiting running is_running

abbrev circuit : Bytes
circuit = codes "STATUS_CLIENT NOTICE CIRCUIT_ESTABLISHED"

on_control_event_stopped_example : on_control_event circuit (on_stop (stop running).0) ≡ fault
on_control_event_stopped_example =
    on_control_event_stopped same no_host no_ip (on_stop (stop running).0) circuit
      (codes "STATUS_CLIENT") (codes "NOTICE") (codes "CIRCUIT_ESTABLISHED") []
      (stops (asks_stop is_running) stop_asked) (unfold has_prefix bytes_eq in refl)
      (unfold split_n in refl)
