-- ===== src/Cli/Client/Tests.antt =====
-- ricochet-cli/client.go with one contact, fed by a backend.
use ricochet_go.Core.Contact.{Clock}
use ricochet_go.Cli.Client.Handlers.{handlers-Mirrors}
use ricochet_go.Common.Exec.{IfEnds}
use ricochet_go.Core.Requests.Invariant.{perform, removes}
use ricochet_go.Cli.Client.Calls.{perform-Mirrors}
use ricochet_go.Cli.Client.Mirror.{Mirrors, published_events}
use ricochet_go.Common.{
  ℕ, Option, ap, ◌∙◌, Bytes, List, codes, [], ◌∷◌, none, some, lookup, insert, is_some, bytes_eq,
  ◌≡◌, refl, true, false, subst, some_eq,
}
use ricochet_go.Rpc.{
  ContactRequest, ContactData, ContactStatus, ContactEvent, ContactEventType, ContactSubject,
  Direction,
}
use ricochet_go.Core.ContactList.{World}
use ricochet_go.Core.Conversation.{Conversation, new_conversation}
use ricochet_go.Core.Conversation.History.{Operation, receives, marks_read}
use ricochet_go.Core.Conversation.Events.{published_by}
use ricochet_go.Core.RpcServer.{
  rpc_add_contact_request, rpc_delete_contact, rpc_accept_inbound_request,
  rpc_reject_inbound_request, contact_population,
}
use ricochet_go.Cli.Client.{
  Client, initial_client, on_contact_event, on_subject, on_contact_subject, on_contact_added,
  set_current_contact,
}
use ricochet_go.Cli.Contacts.{add_contact}
use ricochet_go.Cli.Client.Invariant.{IsWellFormed}
use ricochet_go.Cli.Client.Population.{
  as_listed, on_contact_events, on_contact_events-contact_population,
}
use ricochet_go.Cli.Client.Run.{
  IsReachable, start, contact, selects, reachable-IsWellFormed, on_conversation_events,
  published_by-on_conversation_events,
}

abbrev mine : Bytes
mine = codes "ricochet:2222222222222222"

abbrev theirs : Bytes
theirs = codes "ricochet:abcdefghij234567"

abbrev friend : ContactData
friend = record {
  address = theirs;
  nickname = codes "bob";
  when_created = [];
  last_connected = [];
  request = none;
  status = ContactStatus.offline;
}

abbrev backend : World
backend = record {
  contacts = (theirs, 0) ∷ [];
  requests = [];
  contact_at = λ i. record {
    contact_data = friend;
    locked = false;
    conn_enabled = true;
    connection = none;
    time_connected = 0;
  };
  request_at = λ i. record {
    request_data = record {
      direction = Direction.inbound;
      address = [];
      nickname = [];
      text = [];
      from_nickname = [];
      when_created = [];
      rejected = false;
      when_delivered = [];
      when_rejected = [];
      remote_error = [];
    };
    result_channel = none;
    notifies = false;
  };
  next = 1;
  channels = 0;
  listens = λ c. false;
  list_locked = false;
  request_locked = λ i. false;
  config = [];
  trace = [];
}

populate_friend : ContactEvent
populate_friend = record {
  type = ContactEventType.populate;
  subject = some (ContactSubject.contact friend);
}

with_friend : Client
with_friend = on_contact_event populate_friend (initial_client mine)

is_listed : is_some (lookup theirs with_friend.list.contacts) ≡ true
unfolding with_friend populate_friend on_contact_event on_subject on_contact_subject
    on_contact_added add_contact initial_client lookup insert bytes_eq
is_listed = refl

known : (a : Bytes) → some theirs ≡ some a → is_some (lookup a with_friend.list.contacts) ≡ true
known a e =
    subst (λ x. is_some (lookup x with_friend.list.contacts) ≡ true) (some_eq theirs a e) is_listed

shown : IsReachable mine (set_current_contact (some theirs) with_friend)
unfolding with_friend
shown = selects (some theirs) known (contact populate_friend start)

reachable-IsWellFormed_example : IsWellFormed (set_current_contact (some theirs) with_friend)
reachable-IsWellFormed_example =
    reachable-IsWellFormed mine (set_current_contact (some theirs) with_friend) shown

abbrev talk : Conversation
talk = new_conversation (record { address = theirs; is_self = false })

abbrev hello : List Operation
hello = receives 7 6 (codes "hello") ∷ marks_read 7 ∷ []

published_by-on_conversation_events_example : IsWellFormed (
    on_conversation_events
      (published_by talk hello)
      (set_current_contact (some theirs) with_friend))
published_by-on_conversation_events_example =
    published_by-on_conversation_events talk hello (set_current_contact (some theirs) with_friend)
      (reachable-IsWellFormed mine (set_current_contact (some theirs) with_friend) shown)

on_contact_events-contact_population_example :
    let c' = on_contact_events (contact_population backend) (initial_client mine) in
    ((a : Bytes) → lookup a c'.list.contacts ≡ as_listed mine backend (lookup a backend.contacts))
    × (c'.list.requests ≡ [])
    × (c'.populated_contacts ≡ true)
unfolding initial_client
on_contact_events-contact_population_example =
    on_contact_events-contact_population backend (initial_client mine) refl refl (refl, tt)

populated : Client
populated = on_contact_events (contact_population backend) (initial_client mine)

present : (o : Option ℕ) → is_some (as_listed (initial_client mine).identity backend o) ≡ is_some o
present none = refl
present (some id) = refl

populated_Mirrors : Mirrors populated backend
unfolding populated
populated_Mirrors =
    let (same, requests, done) =
      on_contact_events-contact_population backend (initial_client mine)
        (unfold initial_client in refl) (unfold initial_client in refl) (refl, tt) in
    unfold published_events on_contact_events in
    record {
      same_addresses = λ a. ap is_some (same a) ∙ present (lookup a backend.contacts);
      populated = done;
    }

perform-Mirrors_example : IfEnds (λ _ w'. Mirrors populated w') (perform (removes 0) backend)
perform-Mirrors_example = perform-Mirrors populated (removes 0) backend populated_Mirrors

abbrev clock : Clock
clock = record { now = 5; stamp = codes "2016" }

abbrev their_request : ContactRequest
their_request = (backend.request_at 0).request_data

handlers-Mirrors_example :
    IfEnds (λ _ w'. Mirrors populated w') (rpc_add_contact_request clock their_request backend)
    × IfEnds (λ _ w'. Mirrors populated w') (rpc_delete_contact theirs backend)
    × IfEnds (λ _ w'. Mirrors populated w') (rpc_accept_inbound_request their_request backend)
    × IfEnds (λ _ w'. Mirrors populated w') (rpc_reject_inbound_request their_request backend)
handlers-Mirrors_example =
    handlers-Mirrors populated clock theirs their_request backend populated_Mirrors
