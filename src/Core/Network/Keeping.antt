-- ===== src/Core/Network/Keeping.antt =====
-- core/network.go: the calls and events that leave the control connection as it is.
use ricochet_go.Common.{
  ℕ, Bool, true, false, Option, none, some, is_some, List, [], ◌∷◌, Bytes, if◌then◌else◌, ◌≡◌, refl,
  sym, ap, inl, inr, arith, Bool-cases,
}
use ricochet_go.Common.Exec.{IfEnds}
use ricochet_go.Rpc.{TorConnectionStatus}
use ricochet_go.Core.Network.Control.{Network, set_control_address, set_control_password, stop}
use ricochet_go.Core.Network.Query.{split_n}
use ricochet_go.Core.Network.Services.{
  on_control_event, change_by_parts, change_connection, publish_change, changed_by, is_status_event,
  add_onion_ports, OnionInfo, delete_onion_service,
}

-- Where the loop is: not running, before an attempt to connect, in one, or in its `select`.
-- What the calls of other goroutines and the control events leave as it is.
pub record Keeps (n n' : Network) : Type 0 where
  pub same_conn : n'.conn ≡ n.conn
  pub same_control : n'.status.control ≡ n.status.control
  pub same_connection : is_some n'.status.connection ≡ is_some n.status.connection
  pub same_stopped : n'.stopped_signal ≡ n.stopped_signal

pub Keeps-refl : (n : Network) → Keeps n n
Keeps-refl n = record {
  same_conn = refl;
  same_control = refl;
  same_connection = refl;
  same_stopped = refl;
}

pub either-Keeps :
    (b : Bool) (n : Network) (x y : Network) → Keeps n x → Keeps n y → Keeps n (if b then x else y)
either-Keeps true n x y h k = h
either-Keeps false n x y h k = k

pub set_control_address-Keeps : (a : Bytes) (n : Network) → Keeps n (set_control_address a n).0
unfolding set_control_address
set_control_address-Keeps a n = record {
  same_conn = ground arith;
  same_control = ground arith;
  same_connection = ground arith;
  same_stopped = ground arith;
}

pub set_control_password-Keeps : (a : Bytes) (n : Network) → Keeps n (set_control_password a n).0
unfolding set_control_password
set_control_password-Keeps a n = record {
  same_conn = ground arith;
  same_control = ground arith;
  same_connection = ground arith;
  same_stopped = ground arith;
}

pub stop-Keeps : (n : Network) → Keeps n (stop n).0
unfolding stop
stop-Keeps n = record {
  same_conn = refl;
  same_control = refl;
  same_connection = refl;
  same_stopped = refl;
}

pub delete_onion_service-Keeps : (id : Bytes) (n : Network) → Keeps n (delete_onion_service id n)
unfolding delete_onion_service
delete_onion_service-Keeps id n = record {
  same_conn = refl;
  same_control = refl;
  same_connection = refl;
  same_stopped = refl;
}

pub add_onion_ports-Keeps :
    (conn : ℕ) (answer : Option OnionInfo) (ports : List (ℕ × Bytes)) (key : Option Bytes)
    (n : Network)
    → Keeps n (add_onion_ports conn answer ports key n).0
unfolding add_onion_ports
add_onion_ports-Keeps conn none ports key n = record {
  same_conn = refl;
  same_control = refl;
  same_connection = refl;
  same_stopped = refl;
}
add_onion_ports-Keeps conn (some info) ports key n = record {
  same_conn = refl;
  same_control = refl;
  same_connection = refl;
  same_stopped = refl;
}

pub publish_change-Keeps :
    (o : Option TorConnectionStatus) (n : Network)
    → is_some n.status.connection ≡ true
    → Keeps n (publish_change o n)
unfolding publish_change
publish_change-Keeps none n h = Keeps-refl n
publish_change-Keeps (some new) n h = record {
  same_conn = refl;
  same_control = refl;
  same_connection = sym h;
  same_stopped = refl;
}

pub change_connection-Keeps :
    (action : Bytes) (info : List Bytes) (o : Option TorConnectionStatus) (n : Network)
    → n.status.connection ≡ o
    → IfEnds (λ _ n'. Keeps n n') (change_connection action info o n)
unfolding change_connection
change_connection-Keeps action info none n h = tt
change_connection-Keeps action info (some old) n h =
    publish_change-Keeps (changed_by action info old) n (ap is_some h)

pub event-Keeps :
    (reply : Bytes) (n : Network) → IfEnds (λ _ n'. Keeps n n') (on_control_event reply n)
unfolding on_control_event
event-Keeps reply n = elim (Bool-cases (is_status_event reply)) [
  | inr other ↦ rw other (Keeps-refl n)
  | inl status ↦ rw status (parts (split_n 4 b' ' [] reply))
]
  where
    parts : (l : List Bytes) → IfEnds (λ _ n'. Keeps n n') (change_by_parts l n)
    parts [] = unfold change_by_parts in Keeps-refl n
    parts (a ∷ []) = unfold change_by_parts in Keeps-refl n
    parts (a ∷ b ∷ []) = unfold change_by_parts in Keeps-refl n
    parts (a ∷ b ∷ c ∷ l) =
        unfold change_by_parts in change_connection-Keeps c (b ∷ c ∷ l) n.status.connection n refl
