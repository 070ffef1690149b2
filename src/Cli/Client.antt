-- ===== src/Cli/Client.antt =====
-- ricochet-cli/client.go: the frontend's client, which handles the events of the backend one at a time.
-- The handlers return the new client; what they print, call and start is its trace. The goroutines that
-- read the streams (monitorNetwork and its kin) only pass the events on.
pub mod Listed
pub mod Invariant
pub mod Events
pub mod Current
pub mod Run
pub mod Population
pub mod Mirror
pub mod Following
pub mod Steps
pub mod Calls
pub mod Handlers
pub mod Tests
use ricochet_go.Common.{
  Bool, true, false, not, ◌&&◌, ◌||◌, Option, none, some, is_some, List, [], ◌∷◌, ◌++◌, map, Bytes,
  bytes_eq, Dict, lookup, insert, erase, if◌then◌else◌,
}
use ricochet_go.Rpc.{
  Entity, Message, ContactData, ContactRequest, ContactEvent, ContactEventType, ContactSubject,
  ConversationEvent, ConversationEventType, NetworkStatus, TorControlStatus, TorConnectionStatus,
  TorControlState, TorConnectionState, is_contact_populate, is_conversation_populate,
}
use ricochet_go.Cli.Conversation.{
  Conversation, add_message, update_message, set_active, Effect as ConversationEffect,
}
use ricochet_go.Cli.Contacts.{
  Contact, ContactList, new_contact_list, add_contact, delete_contact, contact_updated, put_contact,
}
use ricochet_go.Cli.Prefixes.{prefix_for_address}

pub data Effect : Type 0 where
  conversation_effect : Bytes → ConversationEffect → Effect
  announce_request : Bytes → Option Bytes → Effect  -- the address and its prefix; `none`: a panic
  monitor_conversations : Effect  -- `go c.monitorConversations()`
  populated : Effect  -- `close(c.populatedChannel)`

-- `current` is the address of `Ui.CurrentContact`, `initialized` that `populatedChannel` is nil.
pub record Client : Type 0 where
  pub identity : Bytes
  pub network_status : NetworkStatus
  pub list : ContactList
  pub current : Option Bytes
  pub initialized : Bool
  pub populated_network : Bool
  pub populated_contacts : Bool
  pub populated_conversations : Bool
  pub trace : List Effect

-- At the end of `Initialize`'s first part, with the answer of the backend for the identity.
unfoldable pub initial_client : Bytes → Client
initial_client identity = record {
  identity = identity;
  network_status = record { control = none; connection = none };
  list = new_contact_list;
  current = none;
  initialized = false;
  populated_network = false;
  populated_contacts = false;
  populated_conversations = false;
  trace = [];
}

unfoldable pub check_if_populated : Client → Client
check_if_populated c =
    if not c.initialized && c.populated_contacts && c.populated_conversations && c.populated_network
    then record c { initialized = true; trace = c.trace ++ populated ∷ [] }
    else c

unfoldable pub on_network_status : NetworkStatus → Client → Client
unfolding check_if_populated
on_network_status status c =
    check_if_populated (record c { network_status = status; populated_network = true })

abbrev pub is_at : Bytes → Option Bytes → Bool
is_at address none = false
is_at address (some a) = bytes_eq a address

abbrev pub is_current : Bytes → Client → Bool
is_current address c = is_at address c.current

-- `Conversation.SetActive` for the contact at the address.
unfoldable pub activate : Bool → Bytes → Client → Client
unfolding set_active
activate active address c = elim (lookup address c.list.contacts) [
  | none ↦ c
  | some k ↦
      let (conversation, effects) = set_active k.conversation active in
      record c {
        list = put_contact address (record k { conversation = conversation }) c.list;
        trace = c.trace ++ map (conversation_effect address) effects;
      }
]

deactivate_current : Client → Client
unfolding activate
deactivate_current c = elim c.current [ none ↦ c | some a ↦ activate false a c ]

-- `UI.SetCurrentContact`, but for the prompt. The contact is one of the list.
unfoldable pub set_current_contact : Option Bytes → Client → Client
unfolding deactivate_current activate
set_current_contact none c = record (deactivate_current c) { current = none }
set_current_contact (some a) c =
    if is_current a c
    then c
    else activate true a (record (deactivate_current c) { current = some a })

-- `SetCurrentContact(nil)` where the current contact has just been deleted.
unfoldable pub on_contact_deleted : Bytes → Client → Client
on_contact_deleted address c = elim (delete_contact address c.list) [
  | none ↦ c
  | some list ↦ record c { list = list; current = if is_current address c then none else c.current }
]

unfoldable pub on_contact_updated : ContactData → Client → Client
unfolding contact_updated
on_contact_updated d c = elim (lookup d.address c.list.contacts) [
  | none ↦ c
  | some k ↦ record c { list = put_contact d.address (contact_updated d k) c.list }
]

unfoldable pub on_contact_added : ContactData → Client → Client
unfolding add_contact
on_contact_added d c = elim (add_contact c.identity d c.list) [
  | none ↦ c
  | some list ↦ record c { list = list }
]

unfoldable pub on_contact_subject : ContactEventType → ContactData → Client → Client
unfolding on_contact_added on_contact_updated on_contact_deleted
on_contact_subject ContactEventType.populate d c = on_contact_added d c
on_contact_subject ContactEventType.add d c = on_contact_added d c
on_contact_subject ContactEventType.update d c = on_contact_updated d c
on_contact_subject ContactEventType.delete d c = on_contact_deleted d.address c
on_contact_subject ContactEventType.null d c = c

with_requests : Dict ContactRequest → Client → Client
with_requests requests c = record c { list = record (c.list) { requests = requests } }

contact_addresses : Dict Contact → List Bytes
contact_addresses [] = []
contact_addresses ((a, k) ∷ rest) = k.contact_data.address ∷ contact_addresses rest

request_addresses : Dict ContactRequest → List Bytes
request_addresses [] = []
request_addresses ((a, r) ∷ rest) = r.address ∷ request_addresses rest

announce : ContactRequest → Client → Client
unfolding contact_addresses request_addresses prefix_for_address
announce r c =
    let prefix =
      prefix_for_address (contact_addresses c.list.contacts) (request_addresses c.list.requests)
        r.address in
    record c { trace = c.trace ++ announce_request r.address prefix ∷ [] }

unfoldable pub on_request_subject : ContactEventType → ContactRequest → Client → Client
unfolding with_requests announce
on_request_subject ContactEventType.populate r c =
    with_requests (insert r.address r c.list.requests) c
on_request_subject ContactEventType.add r c =
    announce r (with_requests (insert r.address r c.list.requests) c)
on_request_subject ContactEventType.update r c =
    announce r (with_requests (insert r.address r c.list.requests) c)
on_request_subject ContactEventType.delete r c = with_requests (erase r.address c.list.requests) c
on_request_subject ContactEventType.null r c = c

-- `go c.monitorConversations()`.
abbrev start_conversations : Client → Client
start_conversations c = record c { trace = c.trace ++ monitor_conversations ∷ [] }

-- A nil subject ends the population.
unfoldable pub end_populate : ContactEventType → Client → Client
unfolding check_if_populated
end_populate type c =
    if is_contact_populate type && not c.populated_contacts
    then start_conversations (check_if_populated (record c { populated_contacts = true }))
    else c

unfoldable pub on_subject : ContactEventType → Option ContactSubject → Client → Client
unfolding on_contact_subject on_request_subject end_populate
on_subject type (some (ContactSubject.contact d)) c = on_contact_subject type d c
on_subject type (some (ContactSubject.request r)) c = on_request_subject type r c
on_subject type none c = end_populate type c

unfoldable pub on_contact_event : ContactEvent → Client → Client
unfolding on_subject
on_contact_event event c =
    if not c.populated_contacts && not (is_contact_populate event.type)
    then c
    else if c.populated_contacts && is_contact_populate event.type
    then c
    else on_subject event.type event.subject c

-- A message for the conversation of a contact.
deliver : ConversationEventType → Message → Contact → Conversation × List ConversationEffect
unfolding add_message update_message
deliver ConversationEventType.populate m k = add_message k.conversation m true
deliver ConversationEventType.receive m k = add_message k.conversation m false
deliver ConversationEventType.send m k = add_message k.conversation m false
deliver ConversationEventType.update m k = (update_message k.conversation m, [])
deliver ConversationEventType.null m k = (k.conversation, [])

deliver_to : ConversationEventType → Message → Bytes → Client → Client
unfolding deliver
deliver_to type m address c = elim (lookup address c.list.contacts) [
  | none ↦ c
  | some k ↦
      let (conversation, effects) = deliver type m k in
      record c {
        list = put_contact address (record k { conversation = conversation }) c.list;
        trace = c.trace ++ map (conversation_effect address) effects;
      }
]

on_message : ConversationEventType → Message → Client → Client
unfolding deliver_to
on_message type m c = elim m.sender [
  | none ↦ c
  | some sender ↦ elim m.recipient [
    | none ↦ c
    | some recipient ↦
        let remote = if not sender.is_self then sender else recipient in
        if sender.is_self && recipient.is_self then c else deliver_to type m remote.address c
  ]
]

unfoldable pub on_conversation_event : ConversationEvent → Client → Client
unfolding on_message check_if_populated
on_conversation_event event c = elim event.msg [
  | none ↦
      if is_conversation_populate event.type
      then check_if_populated (record c { populated_conversations = true })
      else c
  | some m ↦ on_message event.type m c
]

unfoldable pub network_control_status : Client → TorControlStatus
network_control_status c = elim c.network_status.control [
  | none ↦ record { status = TorControlState.stopped; error_message = []; tor_version = [] }
  | some status ↦ status
]

unfoldable pub network_connection_status : Client → TorConnectionStatus
network_connection_status c = elim c.network_status.connection [
  | none ↦ record {
    status = TorConnectionState.unknown;
    bootstrap_progress = [];
    socks_address = [];
  }
  | some status ↦ status
]
