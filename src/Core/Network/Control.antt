-- ===== src/Core/Network/Control.antt =====
-- core/network.go: the state of `Network`, and what tor's answers and events make of it.
use ricochet_go.Common.{
  ℕ, suc, Bool, true, false, Option, none, some, List, [], ◌∷◌, ◌++◌, Bytes, bytes_eq, drop,
  has_prefix, if◌then◌else◌,
}
use ricochet_go.Rpc.{
  NetworkStatus, TorControlStatus, TorControlState, TorConnectionStatus, TorConnectionState,
}
use ricochet_go.Core.Network.Socks.{
  SocksAddress, Ip, no_address, choose_socks_address, is_unix_address, unix, tcp,
}
use ricochet_go.Core.Network.Query.{Result, ok, failed, Tor, handshake}

pub record OnionService : Type 0 where
  pub onion_id : Bytes
  pub ports : List (ℕ × Bytes)
  pub private_key : Option Bytes

pub data Effect : Type 0 where
  publish : NetworkStatus → Effect
  dial : Bytes → Bytes → Effect
  close : ℕ → Effect
  add_onion : ℕ → List (ℕ × Bytes) → Option Bytes → Effect
  delete_onion : ℕ → Bytes → Effect

-- Control connections are numbered in their order. A signal is `true` where its channel is not nil.
pub record Network : Type 0 where
  pub control_address : Bytes
  pub control_password : Bytes
  pub stop_signal : Bool
  pub stopped_signal : Bool
  pub conn : Option ℕ
  pub status : NetworkStatus
  pub socks_address : SocksAddress
  pub onions : List OnionService
  pub next_conn : ℕ
  pub trace : List Effect

abbrev pub no_status : NetworkStatus
no_status = record { control = none; connection = none }

unfoldable pub create_network : Network
create_network = record {
  control_address = [];
  control_password = [];
  stop_signal = false;
  stopped_signal = false;
  conn = none;
  status = no_status;
  socks_address = no_address;
  onions = [];
  next_conn = 0;
  trace = [];
}

-- The flag says whether there is an error.
unfoldable pub set_control_address : Bytes → Network → Network × Bool
set_control_address address n =
    if n.stopped_signal then (n, true) else (record n { control_address = address }, false)

unfoldable pub set_control_password : Bytes → Network → Network × Bool
set_control_password password n =
    if n.stopped_signal then (n, true) else (record n { control_password = password }, false)

pub data StartError : Type 0 where
  already_started not_configured : StartError

-- `Start` up to `go n.run`.
unfoldable pub start : Network → Network × Option StartError
start n =
    if n.stopped_signal
    then (n, some already_started)
    else if bytes_eq n.control_address []
    then (n, some not_configured)
    else (record n { stop_signal = true; stopped_signal = true }, none)

-- What `Stop` does under the mutex, and whether it then signals to the loop.
unfoldable pub stop : Network → Network × Bool
stop n = (record n { stop_signal = false }, n.stop_signal)

-- The status that is set is published.
abbrev set_status : NetworkStatus → Network → Network
set_status status n = record n { status = status; trace = n.trace ++ publish status ∷ [] }

abbrev pub empty_connection : TorConnectionStatus
empty_connection = record {
  status = TorConnectionState.unknown;
  bootstrap_progress = [];
  socks_address = [];
}

abbrev pub control_status : TorControlState → Bytes → Bytes → TorControlStatus
control_status status error_message tor_version = record {
  status = status;
  error_message = error_message;
  tor_version = tor_version;
}

-- The head of the loop of `run`.
unfoldable pub begin_attempt : Network → Network
begin_attempt n =
    set_status
      (record {
        control = some (control_status TorControlState.connecting [] []);
        connection = some empty_connection;
      })
      n

abbrev close_conn : Network → Network
close_conn n = record n {
  conn = none;
  trace = n.trace ++ elim n.conn [ none ↦ [] | some id ↦ close id ∷ [] ];
}

-- `run` on the stop signal.
unfoldable pub on_stop : Network → Network
on_stop n = set_status no_status (record (close_conn n) { stopped_signal = false })

-- `run` on an error of the connection.
unfoldable pub on_error : Bytes → Network → Network
on_error message n =
    set_status
      (record {
        control = some (control_status TorControlState.error message []);
        connection = some empty_connection;
      })
      (close_conn n)

-- `strings.TrimSpace`, `net.SplitHostPort`'s host (`none`: an error) and `net.ParseIP`.
module _ (trim_space : Bytes → Bytes) (split_host : Bytes → Option Bytes)
    (parse_ip : Bytes → Ip) where
  -- `publishOnions`.
  unfoldable pub publish_onions : ℕ → List OnionService → List Effect
  publish_onions id [] = []
  publish_onions id (s ∷ rest) = add_onion id s.ports s.private_key ∷ publish_onions id rest

  -- `connectControl` once all has been answered.
  unfoldable pub connected : ℕ → Bytes → TorConnectionStatus → Network → Network
  unfolding choose_socks_address publish_onions
  connected id version status n =
      let n' =
        set_status
          (record {
            control = some (control_status TorControlState.connected [] version);
            connection = some status;
          })
          n in
      record n' {
        conn = some id;
        socks_address =
            (choose_socks_address split_host parse_ip status.socks_address n.control_address).0;
        trace = n'.trace ++ publish_onions id n.onions;
      }

  abbrev dialed : Network → Network
  dialed n = record n {
    next_conn = suc n.next_conn;
    trace =
        n.trace
        ++ (if is_unix_address n.control_address
            then dial unix (drop 5 n.control_address)
            else dial tcp n.control_address)
          ∷ [];
  }

  -- With the error of `Dial`, and with what became of the rest. The error is `none` where it is nil.
  unfoldable pub finish_connect :
      Option Bytes → Result (Bytes × TorConnectionStatus) → Network → Network × Option Bytes
  unfolding connected has_prefix
  finish_connect (some e) answer n = (dialed n, some e)
  finish_connect none (failed e) n =
      (record (dialed n) { trace = (dialed n).trace ++ close n.next_conn ∷ [] }, some e)
  finish_connect none (ok (version, status)) n =
      (connected n.next_conn version status (dialed n), none)

  unfoldable pub connect_control : Tor → Network → Network × Option Bytes
  unfolding handshake finish_connect
  connect_control tor n = finish_connect tor.dial_error (handshake trim_space tor) n
