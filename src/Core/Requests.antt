-- ===== src/Core/Requests.antt =====
-- core/contactlist.go: requests to new contacts, and requests from peers.
pub mod Consistency
pub mod Steps
pub mod Adding
pub mod Loading
pub mod Calls
pub mod Answers
pub mod Invariant
pub mod Deadlocks
pub mod Tests
use ricochet_go.Common.{
  ℕ, suc, Bool, true, false, not, ◌&&◌, ltb, Option, none, some, is_some, List, [], ◌∷◌, ◌++◌,
  Bytes, bytes_eq, Dict, lookup, insert, length, if◌then◌else◌,
}
use ricochet_go.Common.Exec.{Exec, done, deadlock, ◌>>=◌, ◌>>◌, return}
use ricochet_go.Rpc.{ContactData, ContactRequest, ContactStatus, ContactEventType, Direction}
use ricochet_go.Core.Address.{is_address_valid}
use ricochet_go.Core.Sanitize.{is_nickname_acceptable, is_message_acceptable}
use ricochet_go.Core.Contact.{Contact, Clock, RequestStatus, update_contact_request}
use ricochet_go.Core.ContactList.{
  InboundRequest, World, M, AddError, AddResult, added, refused, taking, scan_blocks,
  invalid_address, invalid_nickname, invalid_from_nickname, invalid_message, update_at, on_contact,
  add_new_contact, request_event,
}
use ricochet_go.Core.InboundRequest.{create_inbound_contact_request, update, accept_with_contact}

abbrev pub outbound_data : Bytes → Bytes → Bytes → Bytes → Bytes → ContactData
outbound_data when address name from_name text = record {
  address = address;
  nickname = name;
  when_created = when;
  last_connected = [];
  request = some (record {
    direction = Direction.outbound;
    address = address;
    nickname = name;
    text = text;
    from_nickname = from_name;
    when_created = when;
    rejected = false;
    when_delivered = [];
    when_rejected = [];
    remote_error = [];
  });
  status = ContactStatus.unknown;
}

-- The tests at the start of `AddContactRequest`; `none` if all are passed.
unfoldable pub refusal : Bytes → Bytes → Bytes → Bytes → Option AddError
unfolding is_address_valid is_nickname_acceptable is_message_acceptable
refusal address name from_name text =
    if not (is_address_valid address)
    then some invalid_address
    else if not (is_nickname_acceptable name)
    then some invalid_nickname
    else if ltb 0 (length from_name) && not (is_nickname_acceptable from_name)
    then some invalid_from_nickname
    else if ltb 0 (length text) && not (is_message_acceptable text)
    then some invalid_message
    else none

-- What follows the new contact: an inbound request for the same address is accepted with it.
unfoldable pub match_inbound : Clock → Bytes → AddResult → M AddResult
unfolding on_contact update_contact_request accept_with_contact
match_inbound clock address (refused e) w = done (refused e) w
match_inbound clock address (added id) w = elim (lookup address w.requests) [
  | none ↦ done (added id) w
  | some request ↦
      (on_contact (update_contact_request clock RequestStatus.accepted) id
          >> accept_with_contact request id
          >> return (added id))
        w
]

unfoldable pub add_contact_request : Clock → Bytes → Bytes → Bytes → Bytes → M AddResult
unfolding refusal add_new_contact match_inbound
add_contact_request clock address name from_name text w =
    elim (refusal address name from_name text) [
      | some e ↦ done (refused e) w
      | none ↦
          (add_new_contact (outbound_data clock.stamp address name from_name text)
              >>= match_inbound clock address)
            w
    ]

-- The loop of `AddOrUpdateInboundContactRequest` over the contacts.
pub find_contact : (ℕ → Contact) → Bytes → Dict ℕ → Option ℕ
find_contact heap address [] = none
find_contact heap address ((a, id) ∷ rest) =
    let others = find_contact heap address rest in
    if bytes_eq (heap id).contact_data.address address then some id else others

abbrev pub is_at : Bytes → ContactData → Bool
is_at address d = bytes_eq d.address address

-- A request, a contact, or neither.
abbrev pub Received : Type 0
Received = Option ℕ × Option ℕ

-- A request from a contact, which is taken as accepted.
unfoldable pub from_contact : Clock → ℕ → M Received
unfolding on_contact update_contact_request
from_contact clock id w =
    if is_some (w.contact_at id).contact_data.request
    then (on_contact (update_contact_request clock RequestStatus.accepted) id
          >> return (none, some id))
        w
    else done (none, some id) w

unfoldable pub new_request : Clock → Bytes → Bytes → Bytes → M Received
unfolding create_inbound_contact_request
new_request clock address nickname message w =
    let r = create_inbound_contact_request clock.stamp address nickname message in
    done (some w.next, none)
      (record w {
        requests = insert address w.next w.requests;
        request_at = update_at w.next (record r { notifies = true }) w.request_at;
        next = suc w.next;
        trace = w.trace ++ request_event ContactEventType.add r.request_data ∷ [];
      })

unfoldable pub add_or_update_inbound_contact_request : Clock → Bytes → Bytes → Bytes → M Received
unfolding scan_blocks update find_contact from_contact new_request
add_or_update_inbound_contact_request clock address nickname message w =
    taking w.list_locked w (elim (lookup address w.requests) [
      | some id ↦ (update id nickname message >> return (some id, none)) w
      | none ↦
          taking (scan_blocks w.contact_at (is_at address) w.contacts) w
            (elim (find_contact w.contact_at address w.contacts) [
              | some id ↦ from_contact clock id w
              | none ↦ new_request clock address nickname message w
            ])
    ])
