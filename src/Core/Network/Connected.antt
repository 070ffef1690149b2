-- ===== src/Core/Network/Connected.antt =====
-- core/network.go: when the control connection is there, and what its events then do.
use ricochet_go.Common.{
  Bool, true, false, Option, none, some, is_some, List, [], ◌∷◌, Bytes, ◌≡◌, refl, sym, ap, subst,
  ◌∙◌, ◌⊎◌, inl, inr, arith,
}
use ricochet_go.Common.Exec.{fault, IfEnds}
use ricochet_go.Rpc.{TorControlStatus, TorControlState, TorConnectionStatus}
use ricochet_go.Core.Network.Socks.{Ip}
use ricochet_go.Core.Network.Control.{
  Network, no_status, create_network, start, begin_attempt, on_stop, on_error, connect_control,
  connected, finish_connect,
}
use ricochet_go.Core.Network.Query.{handshake, Result, split_n}
use ricochet_go.Core.Network.Run.{
  Phase, stopped, starting, attempting, waiting, IsReachable, created, starts, begins, attempts,
  stops, fails, asks_stop, sets_address, sets_password, adds_onion, deletes_onion, sees_event,
}
use ricochet_go.Core.Network.Services.{
  on_control_event, change_by_parts, change_connection, is_status_event,
}
-- Where the loop is: not running, before an attempt to connect, in one, or in its `select`.
use ricochet_go.Core.Network.Keeping.{
  Keeps, set_control_address-Keeps, set_control_password-Keeps, stop-Keeps,
  delete_onion_service-Keeps, add_onion_ports-Keeps, event-Keeps,
}

abbrev pub is_connected : Option TorControlStatus → Bool
is_connected none = false
is_connected (some s) = elim s.status [ TorControlState.connected ↦ true | _ ↦ false ]

abbrev Facts : Phase → Network → Type 0
Facts stopped n =
    (n.conn ≡ none)
    × (n.status.control ≡ none)
    × (is_some n.status.connection ≡ false)
    × (n.stopped_signal ≡ false)
Facts starting n =
    (n.conn ≡ none) × (is_connected n.status.control ≡ false) × (n.stopped_signal ≡ true)
Facts attempting n =
    (n.conn ≡ none)
    × (is_connected n.status.control ≡ false)
    × (is_some n.status.connection ≡ true)
    × (n.stopped_signal ≡ true)
Facts waiting n =
    (is_some n.conn ≡ is_connected n.status.control)
    × (is_some n.status.connection ≡ true)
    × (n.stopped_signal ≡ true)

Facts-Keeps : (p : Phase) (n n' : Network) → Keeps n n' → Facts p n → Facts p n'
Facts-Keeps stopped n n' k h =
    ground (arith, k.same_conn, k.same_control, k.same_connection, k.same_stopped)
Facts-Keeps starting n n' k h =
    ground (arith, k.same_conn, k.same_control, k.same_connection, k.same_stopped)
Facts-Keeps attempting n n' k h =
    ground (arith, k.same_conn, k.same_control, k.same_connection, k.same_stopped)
Facts-Keeps waiting n n' k h =
    ground (arith, k.same_conn, k.same_control, k.same_connection, k.same_stopped)

start-Facts : (n : Network) → Facts stopped n → (start n).1 ≡ none → Facts starting (start n).0
unfolding start
start-Facts n (a, b, c, d) e =
    (ground (arith, a), ground (arith, ap is_connected b), ground (arith, d, e))

nothing : (o : Option TorConnectionStatus) → is_some o ≡ false → o ≡ none
nothing none h = refl
nothing (some c) h = cc

-- Stopped, with no connection and no status.
abbrev pub IsIdle : Network → Type 0
IsIdle n = (n.stopped_signal ≡ false) × (n.conn ≡ none) × (n.status ≡ no_status)

by_phase :
    (p : Phase) (n : Network)
    → Facts p n
    → (is_some n.conn ≡ is_connected n.status.control)
      × ((n.stopped_signal ≡ true) ⊎ IsIdle n)
      × ((n.conn ≡ none) ⊎ (is_some n.status.connection ≡ true))
by_phase stopped n (a, b, c, d) = (
  ap is_some a ∙ sym (ap is_connected b),
  inr (d, a, λ i. record { control = b i; connection = nothing n.status.connection c i }),
  inl a,
)
by_phase starting n (a, b, c) = (ap is_some a ∙ sym b, inl c, inl a)
by_phase attempting n (a, b, c, d) = (ap is_some a ∙ sym b, inl d, inl a)
by_phase waiting n (a, b, c) = (a, inl c, inr b)

module _ (trim_space : Bytes → Bytes) (split_host : Bytes → Option Bytes)
    (parse_ip : Bytes → Ip) where
  finish_connect-Facts :
      (o : Option Bytes) (answer : Result (Bytes × TorConnectionStatus)) (n : Network)
      → Facts attempting n
      → Facts waiting (finish_connect trim_space split_host parse_ip o answer n).0
  unfolding finish_connect connected
  finish_connect-Facts (some e) answer n (no_conn, c, s, r) = (ap is_some no_conn ∙ sym c, s, r)
  finish_connect-Facts none (Result.failed e) n (no_conn, c, s, r) =
      (ap is_some no_conn ∙ sym c, s, r)
  finish_connect-Facts none (Result.ok (version, status)) n (no_conn, c, s, r) = (refl, refl, r)

  reachable-Facts :
      (p : Phase) (n : Network) → IsReachable trim_space split_host parse_ip p n → Facts p n
  unfolding create_network begin_attempt on_stop on_error connect_control
  reachable-Facts _ _ created = (refl, refl, refl, refl)
  reachable-Facts _ _ (starts {n} r e) = start-Facts n (reachable-Facts stopped n r) e
  reachable-Facts _ _ (begins {n} r) =
      let (a, b, c) = reachable-Facts starting n r in (a, refl, refl, c)
  reachable-Facts _ _ (attempts {n} tor r) =
      finish_connect-Facts tor.dial_error (handshake trim_space tor) n
        (reachable-Facts attempting n r)
  reachable-Facts _ _ (stops {n} r e) = (refl, refl, refl, refl)
  reachable-Facts _ _ (fails {n} message r) =
      let (a, b, c) = reachable-Facts waiting n r in (refl, refl, c)
  reachable-Facts _ _ (asks_stop {p} {n} r) =
      Facts-Keeps p n _ (stop-Keeps n) (reachable-Facts p n r)
  reachable-Facts _ _ (sets_address {p} {n} a r) =
      Facts-Keeps p n _ (set_control_address-Keeps a n) (reachable-Facts p n r)
  reachable-Facts _ _ (sets_password {p} {n} a r) =
      Facts-Keeps p n _ (set_control_password-Keeps a n) (reachable-Facts p n r)
  reachable-Facts _ _ (adds_onion {p} {n} conn answer ports key r) =
      Facts-Keeps p n _ (add_onion_ports-Keeps conn answer ports key n) (reachable-Facts p n r)
  reachable-Facts _ _ (deletes_onion {p} {n} id r) =
      Facts-Keeps p n _ (delete_onion_service-Keeps id n) (reachable-Facts p n r)
  reachable-Facts _ _ (sees_event {p} {n} {n'} reply r e) =
      Facts-Keeps p n n' (subst (IfEnds (λ _ n'. Keeps n n')) e (event-Keeps reply n))
        (reachable-Facts p n r)

  -- Whatever tor answers, and whatever is called and whichever events come in the meantime: a control connection is there exactly
  -- when the status says CONNECTED; a network that is not started has no connection and the empty status; and while there is
  -- a connection, its status is there.
  pub reachable-is_connected :
      (p : Phase) (n : Network)
      → IsReachable trim_space split_host parse_ip p n
      → (is_some n.conn ≡ is_connected n.status.control)
        × ((n.stopped_signal ≡ true) ⊎ IsIdle n)
        × ((n.conn ≡ none) ⊎ (is_some n.status.connection ≡ true))
  reachable-is_connected p n r = by_phase p n (reachable-Facts p n r)

  event_at :
      (reply type severity action : Bytes) (arguments : List Bytes) (n : Network)
      → is_status_event reply ≡ true
      → split_n 4 b' ' [] reply ≡ type ∷ severity ∷ action ∷ arguments
      → on_control_event reply n
        ≡ change_connection action (severity ∷ action ∷ arguments) n.status.connection n
  unfolding on_control_event
  event_at reply type severity action arguments n status parts =
      rw (status, parts) (unfold change_by_parts in refl)

  -- A status event of three or more parts that is read before a stop but handled behind it makes the program panic: the status
  -- that it is to change is nil.
  pub on_control_event_stopped :
      (n : Network) (reply type severity action : Bytes) (arguments : List Bytes)
      → IsReachable trim_space split_host parse_ip stopped n
      → is_status_event reply ≡ true
      → split_n 4 b' ' [] reply ≡ type ∷ severity ∷ action ∷ arguments
      → on_control_event reply n ≡ fault
  on_control_event_stopped n reply type severity action arguments r status parts =
      let (a, b, c, d) = reachable-Facts stopped n r in
      event_at reply type severity action arguments n status parts
      ∙ (ap (λ o. change_connection action (severity ∷ action ∷ arguments) o n)
            (nothing n.status.connection c)
          ∙ (unfold change_connection in refl))
