-- ===== src/Core/Contact.antt =====
-- core/contact.go: one contact, its mutex, and the choice of its protocol connection.
-- A method runs in `Exec` on the contact, the configuration's contacts and a trace of effects.
pub mod Loop
pub mod Outbound
pub mod Fruitless
pub mod Settling
pub mod Requests
pub mod Choice
pub mod Locking
pub mod Settled
pub mod Online
pub mod Tests
use mathlib.Core.Option
use ricochet_go.Common.{
  ℕ, ◌+◌, ◌-◌, ◌*◌, ◌^◌, Bool, true, false, not, ◌&&◌, ◌||◌, Option, none, some, is_some, List, [],
  ◌∷◌, ◌++◌, Bytes, codes, bytes_eq, bytes_lt, bool_eq, Dict, insert, ltb, ◌==◌, if◌then◌else◌,
}
use ricochet_go.Common.Exec.{Exec, done, deadlock, fault, ◌>>=◌, ◌>>◌, return}
use ricochet_go.Rpc.{
  ContactData, ContactRequest, ContactStatus, ContactEvent, ContactEventType, ContactSubject,
  is_rejected, is_online,
}
use ricochet_go.Core.Address.{is_address_valid, onion_from_address, plain_host_from_address}

-- What the code reads of a connection of the protocol library; `id` is the identity of the object, and
-- `authenticated` is `Authentication["im.ricochet.auth.hidden-service"]`.
pub record Connection : Type 0 where
  pub id : ℕ
  pub is_inbound : Bool
  pub remote_hostname : Bytes
  pub authenticated : Bool

-- `locked` says that the mutex is held. Times are in nanoseconds.
pub record Contact : Type 0 where
  pub contact_data : ContactData
  pub locked : Bool
  pub conn_enabled : Bool
  pub connection : Option Connection
  pub time_connected : ℕ

pub data Effect : Type 0 where
  close : ℕ → Effect  -- `Conn.Close` on the connection
  close_unhandled : ℕ → Effect  -- `go closeUnhandledConnection`
  handle : ℕ → Effect  -- `go c.handleConnection`
  await_closed : Effect  -- `<-connClosedChannel` for the connection that is replaced
  connect_outbound : Effect  -- `go c.connectOutbound`
  cancel_outbound : Effect
  publish : ContactEvent → Effect
  send_queued : Effect  -- `SendQueuedMessages` of the conversation
  assign : ℕ → Effect  -- `AssignConnection`

-- `config` stands for `config.Contacts` after the last `Config.Unlock`.
pub record State : Type 0 where
  pub contact : Contact
  pub config : Dict ContactData
  pub trace : List Effect

abbrev pub M : Type 0 → Type 0
M A = State → Exec State A

-- `time.Now()`, and the same time as RFC 3339 text.
pub record Clock : Type 0 where
  pub now : ℕ
  pub stamp : Bytes

-- The status of a contact that is loaded.
unfoldable pub initial_status : ContactData → ContactStatus
initial_status d = elim d.request [
  | some r ↦ if r.rejected then ContactStatus.rejected else ContactStatus.request
  | none ↦ if is_rejected d.status then d.status else ContactStatus.unknown
]

-- `none` is an error.
unfoldable pub contact_from_config : ContactData → Option Contact
unfolding is_address_valid initial_status
contact_from_config d =
    if is_address_valid d.address
    then some (record {
      contact_data = record d { status = initial_status d };
      locked = false;
      conn_enabled = false;
      connection = none;
      time_connected = 0;
    })
    else none

unfoldable pub lock : M (Unit {0})
lock s =
    if s.contact.locked
    then deadlock s
    else done tt (record s { contact = record (s.contact) { locked = true } })

unfoldable pub unlock : M (Unit {0})
unlock s =
    if s.contact.locked
    then done tt (record s { contact = record (s.contact) { locked = false } })
    else fault

unfoldable pub emit : Effect → M (Unit {0})
emit e s = done tt (record s { trace = s.trace ++ e ∷ [] })

unfoldable pub get : M Contact
get s = done s.contact s

unfoldable pub put : (Contact → Contact) → M (Unit {0})
put f s = done tt (record s { contact = f s.contact })

-- The getters hold the mutex while they read.
unfoldable pub get_locked : {A : Type 0} → (Contact → A) → M A
unfolding lock unlock get
get_locked read = do lock; c ← get; unlock; return (read c)

unfoldable pub nickname : M Bytes
unfolding get_locked
nickname = get_locked (λ c. c.contact_data.nickname)

unfoldable pub address : M Bytes
unfolding get_locked
address = get_locked (λ c. c.contact_data.address)

unfoldable pub hostname : M Bytes
unfolding get_locked onion_from_address
hostname = get_locked (λ c. (onion_from_address c.contact_data.address).0)

unfoldable pub status : M ContactStatus
unfolding get_locked
status = get_locked (λ c. c.contact_data.status)

unfoldable pub data_clone : M ContactData
unfolding get_locked
data_clone = get_locked (λ c. c.contact_data)

unfoldable pub is_request : M Bool
unfolding get_locked
is_request = get_locked (λ c. is_some c.contact_data.request)

unfoldable pub current_connection : M (Option Connection)
unfolding get_locked
current_connection = get_locked (λ c. c.connection)

unfoldable pub should_make_outbound_connections : M Bool
unfolding get_locked
should_make_outbound_connections =
    get_locked (λ c. if is_rejected c.contact_data.status then false else c.conn_enabled)

-- Writing the contact's data into the configuration, between `Config.Lock` and `Config.Unlock`.
unfoldable pub write_config : M (Unit {0})
write_config s =
    done tt
      (record s { config = insert s.contact.contact_data.address s.contact.contact_data s.config })

abbrev pub update_event : ContactData → ContactEvent
update_event d = record {
  type = ContactEventType.update;
  subject = some (ContactSubject.contact d);
}

unfoldable pub with_request : ContactRequest → Contact → Contact
with_request r c = record c { contact_data = record (c.contact_data) { request = some r } }

-- The four texts that `updateContactRequest` knows, and any other.
pub data RequestStatus : Type 0 where
  pending accepted rejected error other : RequestStatus

-- The body of its `switch`; `none` is a write through a nil request.
unfoldable pub apply_status : Bytes → RequestStatus → Contact → Option Contact
unfolding with_request
apply_status now pending c =
    Option.map (λ r. with_request (record r { when_delivered = now }) c) c.contact_data.request
apply_status now accepted c = some (record c {
  contact_data = record (c.contact_data) {
    request = none;
    status = if is_some c.connection then ContactStatus.online else ContactStatus.unknown;
  };
})
apply_status now rejected c =
    Option.map (λ r. with_request (record r { when_rejected = now }) c) c.contact_data.request
apply_status now error c =
    Option.map
      (λ r.
        with_request (record r { when_rejected = now; remote_error = codes "error occurred" }) c)
      c.contact_data.request
apply_status now other c = some c

abbrev pub keeps_open : RequestStatus → Bool
keeps_open pending = true
keeps_open _ = false

-- `updateContactRequest`, with the mutex held.
unfoldable pub update_contact_request_held : Clock → RequestStatus → M Bool
unfolding write_config apply_status
update_contact_request_held clock status s = elim (apply_status clock.stamp status s.contact) [
  | none ↦ fault
  | some c ↦ (write_config >> return (keeps_open status)) (record s { contact = c })
]

-- The rest of `UpdateContactRequest` for a contact with a request: `c.Data()` takes the mutex, which
-- is still held.
unfoldable pub update_and_publish : Clock → RequestStatus → M Bool
unfolding update_contact_request_held data_clone emit unlock
update_and_publish clock status = do
  re ← update_contact_request_held clock status
  d ← data_clone
  emit (publish (update_event d))
  unlock
  return re

unfoldable pub update_contact_request : Clock → RequestStatus → M Bool
unfolding lock unlock get update_and_publish
update_contact_request clock status = lock >> λ s.
    if is_some s.contact.contact_data.request
    then update_and_publish clock status s
    else (unlock >> return false) s

abbrev pub is_inbound_connection : Option Connection → Bool
is_inbound_connection none = false
is_inbound_connection (some conn) = conn.is_inbound

unfoldable pub set_status : ContactStatus → M (Unit {0})
unfolding put
set_status status =
    put (λ c. record c { contact_data = record (c.contact_data) { status = status } })

unfoldable pub accept_request : Clock → M (Unit {0})
unfolding update_contact_request_held
accept_request clock = do re ← update_contact_request_held clock accepted; return tt

-- The first part of `onConnectionStateChanged`: the status.
unfoldable pub update_status : Clock → M (Unit {0})
unfolding set_status accept_request
update_status clock s =
    if is_some s.contact.connection
    then (if is_some s.contact.contact_data.request && is_inbound_connection s.contact.connection
        then accept_request clock s
        else set_status ContactStatus.online s)
    else if is_online s.contact.contact_data.status
    then set_status ContactStatus.offline s
    else done tt s

unfoldable pub touch : Clock → Contact → Contact
touch clock c = record c {
  contact_data = record (c.contact_data) { last_connected = clock.stamp };
  time_connected = clock.now;
}

-- Its end: the messages that are queued are sent if there is a connection.
unfoldable pub flush : M (Unit {0})
unfolding emit
flush s = if is_some s.contact.connection then emit send_queued s else done tt s

-- Its middle and end: the times, the configuration, the event, and the queued messages; the mutex is
-- let go from the event on, and taken again.
unfoldable pub announce_change : Clock → M (Unit {0})
unfolding put flush touch write_config lock unlock data_clone emit
announce_change clock = do
  put (touch clock)
  write_config
  unlock
  d ← data_clone
  emit (publish (update_event d))
  flush
  lock

-- `onConnectionStateChanged`, with the mutex held on entry and on return.
unfoldable pub on_connection_state_changed : Clock → M (Unit {0})
unfolding update_status announce_change
on_connection_state_changed clock = update_status clock >> announce_change clock

-- `shouldReplaceConnection`; `mine` is the local identity's address.
unfoldable pub should_replace_connection : Bytes → ℕ → Contact → Connection → Bool
unfolding plain_host_from_address
should_replace_connection mine now c conn =
    let my_hostname = (plain_host_from_address mine).0 in
    let prefer_outbound = bytes_lt my_hostname conn.remote_hostname in
    elim c.connection [
      | none ↦ true
      | some old ↦
          if bool_eq old.is_inbound conn.is_inbound
          then true
          else if ltb (30 * 10 ^ 9) (now - c.time_connected)
          then true
          else not (bool_eq prefer_outbound conn.is_inbound)
    ]

pub data Discarded : Type 0 where
  duplicate not_authenticated wrong_hostname using_existing : Discarded

abbrev pub same_connection : Connection → Option Connection → Bool
same_connection conn none = false
same_connection conn (some old) = old.id == conn.id

-- The decision of `considerUsingConnection`; `none` is a nil error.
unfoldable pub judge_connection : Bytes → ℕ → Contact → Connection → Option Discarded
unfolding should_replace_connection plain_host_from_address
judge_connection mine now c conn =
    if same_connection conn c.connection
    then some duplicate
    else if not conn.authenticated
    then some not_authenticated
    else if not (bytes_eq (plain_host_from_address c.contact_data.address).0 conn.remote_hostname)
    then some wrong_hostname
    else if is_some c.connection && not (should_replace_connection mine now c conn)
    then some using_existing
    else none

-- Which connection the deferred function closes: the new one on an error, else the old one.
unfoldable pub connection_to_close : Option Discarded → Connection → Option Connection → Option ℕ
connection_to_close (some e) conn old = some conn.id
connection_to_close none conn none = none
connection_to_close none conn (some old) = some old.id

unfoldable pub close_if : Option ℕ → M (Unit {0})
unfolding emit
close_if none = return tt
close_if (some id) = emit (close id)

unfoldable pub consider_using_connection : Bytes → Clock → Connection → M (Option Discarded)
unfolding get judge_connection connection_to_close close_if
consider_using_connection mine clock conn = do
  c ← get
  close_if (connection_to_close (judge_connection mine clock.now c conn) conn c.connection)
  return (judge_connection mine clock.now c conn)
