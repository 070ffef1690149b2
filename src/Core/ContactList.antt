-- ===== src/Core/ContactList.antt =====
-- core/contactlist.go: the contacts and the inbound requests of the identity.
-- Contacts and requests are objects on a heap, shared by the list, by connections and by callers; the
-- maps hold their numbers. A method of the list holds the list's mutex from its start to its end, as a
-- method of a request holds the request's, so each is one step here: calls do not interleave. A call
-- blocks where it takes a mutex that is held, by itself or by a call that never ended, and where it sends
-- to a connection that does not listen.
use ricochet_go.Common.{
  ℕ, suc, Bool, true, false, map, Option, none, some, is_some, List, [], ◌∷◌, ◌++◌, Bytes, bytes_eq,
  Dict, lookup, insert, erase, ◌==◌, if◌then◌else◌,
}
use ricochet_go.Common.Exec.{Exec, done, deadlock, fault}
use ricochet_go.Rpc.{
  ContactData, ContactRequest, ContactStatus, ContactEvent, ContactEventType, ContactSubject,
}
use ricochet_go.Core.Contact.{
  Contact, contact_from_config, State as ContactState, Effect as ContactEffect,
}

-- `result_channel` is `contactResultChan`; `notifies` says that `StatusChanged` is set.
pub record InboundRequest : Type 0 where
  pub request_data : ContactRequest
  pub result_channel : Option ℕ
  pub notifies : Bool

pub data Effect : Type 0 where
  contact_effect : ℕ → ContactEffect → Effect
  publish : ContactEvent → Effect
  start_connection : ℕ → Effect  -- the signal that `StartConnection` sends to the contact's loop
  stop_connection : ℕ → Effect
  send_result : ℕ → Option ℕ → Effect  -- on a result channel: a contact, or nil
  close_channel : ℕ → Effect
  close_request : ℕ → Effect  -- `go request.CloseConnection()`

-- `listens` says of a result channel that the connection which waits on it is still in its `select`.
-- `list_locked` is `cl.mutex` and `request_locked` is `cr.mutex` of each request: a call that ends lets
-- them go, so that one is held between two calls only by a call that is still there.
pub record World : Type 0 where
  pub contacts : Dict ℕ
  pub requests : Dict ℕ
  pub contact_at : ℕ → Contact
  pub request_at : ℕ → InboundRequest
  pub next : ℕ  -- the number of the next object
  pub channels : ℕ  -- the number of the next result channel
  pub listens : ℕ → Bool
  pub list_locked : Bool
  pub request_locked : ℕ → Bool
  pub config : Dict ContactData
  pub trace : List Effect

abbrev pub M : Type 0 → Type 0
M A = World → Exec World A

abbrev pub update_at : {A : Type 0} → ℕ → A → (ℕ → A) → ℕ → A
update_at i a f j = if i == j then a else f j

-- What follows the taking of a mutex.
abbrev pub taking : {A : Type 0} → Bool → World → Exec World A → Exec World A
taking held w m = if held then deadlock w else m

-- Running a method of a contact.
with_state : ℕ → World → ContactState → World
with_state id w s = record w {
  contact_at = update_at id s.contact w.contact_at;
  config = s.config;
  trace = w.trace ++ map (contact_effect id) s.trace;
}

after_method : {A : Type 0} → ℕ → World → Exec ContactState A → Exec World A
unfolding with_state
after_method id w (done a s) = done a (with_state id w s)
after_method id w (deadlock s) = deadlock (with_state id w s)
after_method id w fault = fault

unfoldable pub on_contact : {A : Type 0} → (ContactState → Exec ContactState A) → ℕ → M A
unfolding after_method with_state
on_contact m id w =
    after_method id w (m (record { contact = w.contact_at id; config = w.config; trace = [] }))

abbrev pub contact_event : ContactEventType → ContactData → Effect
contact_event type d = publish (record { type = type; subject = some (ContactSubject.contact d) })

abbrev pub request_event : ContactEventType → ContactRequest → Effect
request_event type r = publish (record { type = type; subject = some (ContactSubject.request r) })

pub data AddError : Type 0 where
  address_exists nickname_exists invalid_address invalid_nickname invalid_from_nickname
        invalid_message already_rejected address_differs :
      AddError

pub data AddResult : Type 0 where
  added : ℕ → AddResult
  refused : AddError → AddResult

-- Whether a loop over the contacts, which takes each one's mutex to read it and ends at the first that
-- passes the test, meets a mutex that is held.
unfoldable pub scan_blocks : (ℕ → Contact) → (ContactData → Bool) → Dict ℕ → Bool
scan_blocks heap test [] = false
scan_blocks heap test ((a, id) ∷ rest) =
    let later = scan_blocks heap test rest in
    if (heap id).locked then true else if test (heap id).contact_data then false else later

-- The loop of `AddNewContact` over the contacts' nicknames.
unfoldable pub has_nickname : (ℕ → Contact) → Bytes → Dict ℕ → Bool
has_nickname heap name [] = false
has_nickname heap name ((a, id) ∷ rest) =
    let others = has_nickname heap name rest in
    if bytes_eq (heap id).contact_data.nickname name then true else others

-- The part of `AddNewContact` behind the configuration: the new contact and its event, and
-- `StartConnection`.
unfoldable pub create_contact : ContactData → M AddResult
unfolding contact_from_config
create_contact d w = elim (contact_from_config d) [
  | none ↦ done (refused invalid_address) w
  | some c ↦ done (added w.next) (record w {
    contacts = insert d.address w.next w.contacts;
    contact_at = update_at w.next (record c { conn_enabled = true }) w.contact_at;
    next = suc w.next;
    trace =
        w.trace ++ contact_event ContactEventType.add c.contact_data ∷ start_connection w.next ∷ [];
  })
]

abbrev pub is_named : Bytes → ContactData → Bool
is_named name d = bytes_eq d.nickname name

unfoldable pub add_new_contact : ContactData → M AddResult
unfolding scan_blocks has_nickname create_contact
add_new_contact d w = taking w.list_locked w (
    if is_some (lookup d.address w.contacts)
    then done (refused address_exists) w
    else taking (scan_blocks w.contact_at (is_named d.nickname) w.contacts) w (
        if has_nickname w.contact_at d.nickname w.contacts
        then done (refused nickname_exists) w
        else create_contact d (record w { config = insert d.address d w.config })))

abbrev pub is_listed : ℕ → Option ℕ → Bool
is_listed id none = false
is_listed id (some i) = i == id

abbrev blank_contact : Bytes → ContactData
blank_contact a = record {
  address = a;
  nickname = [];
  when_created = [];
  last_connected = [];
  request = none;
  status = ContactStatus.unknown;
}

-- The flag says whether there is an error.
unfoldable pub remove_contact : ℕ → M Bool
remove_contact id w =
    let c = w.contact_at id in
    let a = c.contact_data.address in
    taking w.list_locked w (
      taking c.locked w (
        if is_listed id (lookup a w.contacts)
        then done false (record w {
          contact_at = update_at id (record c { conn_enabled = false }) w.contact_at;
          config = erase a w.config;
          contacts = erase a w.contacts;
          trace =
              w.trace
              ++ stop_connection id ∷ contact_event ContactEventType.delete (blank_contact a) ∷ [];
        })
        else done true w))

-- The flag says whether there is an error.
unfoldable pub remove_inbound_contact_request : ℕ → M Bool
remove_inbound_contact_request id w =
    let r = (w.request_at id).request_data in
    taking w.list_locked w (
      if is_listed id (lookup r.address w.requests)
      then done false (record w {
        requests = erase r.address w.requests;
        trace = w.trace ++ close_request id ∷ request_event ContactEventType.delete r ∷ [];
      })
      else done true w)

-- What the callback `StatusChanged` publishes, if it is set.
unfoldable pub inbound_request_changed : InboundRequest → List Effect
inbound_request_changed r =
    if r.notifies then request_event ContactEventType.update r.request_data ∷ [] else []

-- The loop of `LoadContactList` over the configuration; `none` is an error.
unfoldable pub load_contacts : Dict ContactData → World → Option World
unfolding contact_from_config
load_contacts [] w = some w
load_contacts ((a, d) ∷ rest) w =
    let later : Contact → Option World = λ c. load_contacts rest (record w {
      contacts = insert a w.next w.contacts;
      contact_at = update_at w.next c w.contact_at;
      next = suc w.next;
    }) in
    if is_some (lookup a w.contacts)
    then none
    else if bytes_eq a d.address
    then elim (contact_from_config d) [ none ↦ none | some c ↦ later c ]
    else none
