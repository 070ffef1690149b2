-- ===== src/Core/Contact/Tests.antt =====
-- core/contact.go on an established contact and on one with a request.
use ricochet_go.Common.{
  bytes_eq, true, false, not, ◌≡◌, ◌≢◌, refl, none, some, [], ◌∷◌, Bytes, codes, arith, ◌⊎◌, List,
}
use ricochet_go.Common.Exec.{Ends, Reaches, done, IsBlocked}
use ricochet_go.Rpc.{ContactData, ContactRequest, ContactStatus, Direction}
use ricochet_go.Core.Address.{is_address_valid, plain_host_from_address}
use ricochet_go.Core.Contact.{
  Contact, Connection, State, Clock, accepted, update_contact_request, should_replace_connection,
}
use ricochet_go.Core.Contact.Loop.{new_connection, round}
use ricochet_go.Core.Contact.Outbound.{
  Attempt, connect_fails, authenticates, replied, connect_outbound,
}
use ricochet_go.Core.Contact.Choice.{host, seen, using, should_replace_connection_agrees}
use ricochet_go.Core.Contact.Locking.{update_contact_request_blocks}
use ricochet_go.Core.Contact.Fruitless.{Fruitless, Assigns}
use ricochet_go.Core.Contact.Settling.{Settles}
use ricochet_go.Core.Contact.Requests.{connect_outbound_request, connect_outbound_contact}
use ricochet_go.Core.Contact.Settled.{IsSettled}
use ricochet_go.Core.Contact.Online.{round-IsSettled}

abbrev mine : Bytes
mine = codes "ricochet:2222222222222222"

abbrev theirs : Bytes
theirs = codes "ricochet:abcdefghij234567"

abbrev friend : ContactData
friend = record {
  address = theirs;
  nickname = codes "bob";
  when_created = [];
  last_connected = [];
  request = none;
  status = ContactStatus.offline;
}

abbrev asked : ContactRequest
asked = record {
  direction = Direction.outbound;
  address = theirs;
  nickname = codes "bob";
  text = [];
  from_nickname = [];
  when_created = [];
  rejected = false;
  when_delivered = [];
  when_rejected = [];
  remote_error = [];
}

abbrev contact : ContactData → Contact
contact d = record {
  contact_data = d;
  locked = false;
  conn_enabled = true;
  connection = none;
  time_connected = 0;
}

abbrev start : ContactData → State
start d = record { contact = contact d; config = []; trace = [] }

abbrev clock : Clock
clock = record { now = 5; stamp = codes "2016" }

abbrev conn : Connection
conn = record {
  id = 1;
  is_inbound = false;
  remote_hostname = codes "abcdefghij234567";
  authenticated = true;
}

abbrev attempts : List Attempt
attempts = connect_fails false ∷ authenticates conn true (replied accepted true) false ∷ []

round-IsSettled_example :
    Ends (λ _ s'. IsSettled s') (round mine clock true (new_connection (some conn)) (start friend))
round-IsSettled_example =
    round-IsSettled mine clock true (new_connection (some conn)) (start friend)
      (record { free = refl; agrees = refl })

hosts_differ : host mine ≢ host theirs
unfolding plain_host_from_address is_address_valid bytes_eq
hosts_differ e = cc

should_replace_connection_agrees_example :
    let ia = seen 1 true (host theirs) in
    let ja = seen 2 false (host theirs) in
    let ib = seen 1 false (host mine) in
    let jb = seen 2 true (host mine) in
    (should_replace_connection mine 5 (using ia (contact friend)) ja
      ≡ not (should_replace_connection mine 5 (using ja (contact friend)) ia))
    × (should_replace_connection theirs 5 (using ib (contact friend)) jb
        ≡ not (should_replace_connection theirs 5 (using jb (contact friend)) ib))
    × (should_replace_connection mine 5 (using ia (contact friend)) ja
        ≡ should_replace_connection theirs 5 (using ib (contact friend)) jb)
should_replace_connection_agrees_example =
    should_replace_connection_agrees mine theirs 5 5 (contact friend) (contact friend) 1 2
      hosts_differ (omega arith) (omega arith)

update_contact_request_blocks_example :
    let s = start (record friend { request = some asked }) in
    ((s.contact.contact_data.request ≡ none)
      × (update_contact_request clock accepted s ≡ done false s))
    ⊎ ((r : ContactRequest) × (s.contact.contact_data.request ≡ some r)
        × IsBlocked (update_contact_request clock accepted s))
update_contact_request_blocks_example =
    update_contact_request_blocks clock accepted (start (record friend { request = some asked }))
      refl

connect_outbound_request_example :
    Reaches
      (Fruitless asked [])
      (Assigns [])
      (connect_outbound clock attempts (start (record friend { request = some asked })))
connect_outbound_request_example =
    connect_outbound_request clock attempts asked (start (record friend { request = some asked }))
      refl refl

connect_outbound_contact_example :
    Ends (Settles attempts (start friend)) (connect_outbound clock attempts (start friend))
connect_outbound_contact_example = connect_outbound_contact clock attempts (start friend) refl refl
