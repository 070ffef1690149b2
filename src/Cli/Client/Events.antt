-- ===== src/Cli/Client/Events.antt =====
-- Every event of the backend, and every choice of the user, leaves the client of ricochet-cli/client.go
-- well-formed.
use ricochet_go.Common.{
  Bool, true, false, not, ◌&&◌, Bytes, lookup, if◌then◌else◌, Option, some, none, ◌≡◌, inl, inr,
  refl, arith, Bool-cases, Option-cases,
}
use ricochet_go.Rpc.{
  Entity, Message, ContactData, ContactEvent, ContactEventType, ContactRequest, ContactSubject,
  ConversationEvent, ConversationEventType, NetworkStatus, is_contact_populate,
  is_conversation_populate, is_quiet, is_quiet_about, is_quiet_event,
}
use ricochet_go.Cli.Contacts.{Contact}
use ricochet_go.Cli.Client.{
  Client, is_current, on_network_status, on_contact_event, on_subject, on_contact_subject,
  on_request_subject, announce, with_requests, end_populate, on_conversation_event, on_message,
  deliver_to, deliver, check_if_populated, initial_client,
}
use ricochet_go.Cli.Client.Listed.{
  IsWellListed, add_message-IsWellListed, update_message-IsWellListed,
}
use ricochet_go.Cli.Client.Invariant.{
  IsWellFormed, check_if_populated-IsWellFormed, put-IsWellFormed, on_contact_added-IsWellFormed,
  on_contact_updated-IsWellFormed, on_contact_deleted-IsWellFormed,
}

pub initial_client-IsWellFormed : (identity : Bytes) → IsWellFormed (initial_client identity)
unfolding initial_client lookup
initial_client-IsWellFormed identity = record {
  listed = λ a k h. absurd (ground (arith, h));
  current_listed = λ a h. ground (arith, h);
  ready = refl;
}

pub on_network_status-IsWellFormed :
    (status : NetworkStatus) (c : Client)
    → IsWellFormed c
    → IsWellFormed (on_network_status status c)
unfolding on_network_status
on_network_status-IsWellFormed status c w =
    check_if_populated-IsWellFormed (record c { network_status = status; populated_network = true })
      w.listed w.current_listed (λ h. ground (arith, w.ready, h))

on_contact_subject-IsWellFormed :
    (type : ContactEventType) (d : ContactData) (c : Client)
    → IsWellFormed c
    → IsWellFormed (on_contact_subject type d c)
unfolding on_contact_subject
on_contact_subject-IsWellFormed ContactEventType.null d c w = w
on_contact_subject-IsWellFormed ContactEventType.populate d c w =
    on_contact_added-IsWellFormed d c w
on_contact_subject-IsWellFormed ContactEventType.add d c w = on_contact_added-IsWellFormed d c w
on_contact_subject-IsWellFormed ContactEventType.update d c w =
    on_contact_updated-IsWellFormed d c w
on_contact_subject-IsWellFormed ContactEventType.delete d c w =
    on_contact_deleted-IsWellFormed d.address c w

on_request_subject-IsWellFormed :
    (type : ContactEventType) (r : ContactRequest) (c : Client)
    → IsWellFormed c
    → IsWellFormed (on_request_subject type r c)
unfolding on_request_subject announce with_requests
on_request_subject-IsWellFormed ContactEventType.null r c w = w
on_request_subject-IsWellFormed ContactEventType.populate r c w = record {
  listed = w.listed;
  current_listed = w.current_listed;
  ready = w.ready;
}
on_request_subject-IsWellFormed ContactEventType.add r c w = record {
  listed = w.listed;
  current_listed = w.current_listed;
  ready = w.ready;
}
on_request_subject-IsWellFormed ContactEventType.update r c w = record {
  listed = w.listed;
  current_listed = w.current_listed;
  ready = w.ready;
}
on_request_subject-IsWellFormed ContactEventType.delete r c w = record {
  listed = w.listed;
  current_listed = w.current_listed;
  ready = w.ready;
}

end_populate-IsWellFormed :
    (type : ContactEventType) (c : Client) → IsWellFormed c → IsWellFormed (end_populate type c)
unfolding end_populate
end_populate-IsWellFormed type c w =
    elim (Bool-cases (is_contact_populate type && not c.populated_contacts)) [
      | inr goes_on ↦ rw goes_on w
      | inl ends ↦
          let w' =
            check_if_populated-IsWellFormed (record c { populated_contacts = true }) w.listed
              w.current_listed (λ h. ground (arith, w.ready, h)) in
          rw ends
            (record { listed = w'.listed; current_listed = w'.current_listed; ready = w'.ready })
    ]

on_subject-IsWellFormed :
    (type : ContactEventType) (subject : Option ContactSubject) (c : Client)
    → IsWellFormed c
    → IsWellFormed (on_subject type subject c)
unfolding on_subject
on_subject-IsWellFormed type none c w = end_populate-IsWellFormed type c w
on_subject-IsWellFormed type (some (ContactSubject.contact d)) c w =
    on_contact_subject-IsWellFormed type d c w
on_subject-IsWellFormed type (some (ContactSubject.request r)) c w =
    on_request_subject-IsWellFormed type r c w

-- Of three clients, whichever a test chooses.
either-IsWellFormed :
    (b : Bool) (c d : Client) → IsWellFormed c → IsWellFormed d → IsWellFormed (if b then c else d)
either-IsWellFormed true c d w v = w
either-IsWellFormed false c d w v = v

pub on_contact_event-IsWellFormed :
    (event : ContactEvent) (c : Client) → IsWellFormed c → IsWellFormed (on_contact_event event c)
unfolding on_contact_event
on_contact_event-IsWellFormed event c w =
    let handled = on_subject event.type event.subject c in
    either-IsWellFormed (not c.populated_contacts && not (is_contact_populate event.type)) c
      (if c.populated_contacts && is_contact_populate event.type then c else handled) w
      (either-IsWellFormed (c.populated_contacts && is_contact_populate event.type) c handled w
        (on_subject-IsWellFormed event.type event.subject c w))

deliver-IsWellListed :
    (type : ConversationEventType) (m : Message) (identity : Bytes) (shown : Bool) (a : Bytes)
    (k : Contact)
    → is_quiet type m ≡ true
    → IsWellListed identity shown a k
    → IsWellListed identity shown a (record k { conversation = (deliver type m k).0 })
unfolding deliver
deliver-IsWellListed ConversationEventType.null m identity shown a k q h = h
deliver-IsWellListed ConversationEventType.populate m identity shown a k q h =
    add_message-IsWellListed identity shown a k m true h
deliver-IsWellListed ConversationEventType.receive m identity shown a k q h =
    add_message-IsWellListed identity shown a k m false h
deliver-IsWellListed ConversationEventType.send m identity shown a k q h =
    add_message-IsWellListed identity shown a k m false h
deliver-IsWellListed ConversationEventType.update m identity shown a k q h =
    update_message-IsWellListed identity shown a k m (ground (arith, q)) h

deliver_to-IsWellFormed :
    (type : ConversationEventType) (m : Message) (a : Bytes) (c : Client)
    → is_quiet type m ≡ true
    → IsWellFormed c
    → IsWellFormed (deliver_to type m a c)
unfolding deliver_to
deliver_to-IsWellFormed type m a c q w = elim (Option-cases (lookup a c.list.contacts)) [
  | inl missing ↦ rw (missing, deliver_to) w
  | inr (k, there) ↦
      rw (there, deliver_to)
        (put-IsWellFormed c a k (record k { conversation = (deliver type m k).0 }) _ w there
          (deliver-IsWellListed type m c.identity (is_current a c) a k q (w.listed a k there)))
]

on_message-IsWellFormed :
    (type : ConversationEventType) (m : Message) (c : Client)
    → is_quiet type m ≡ true
    → IsWellFormed c
    → IsWellFormed (on_message type m c)
unfolding on_message
on_message-IsWellFormed type m c q w = go m.sender m.recipient
  where
    go :
        (s r : Option Entity)
        → IsWellFormed (elim s [
          | none ↦ c
          | some sender ↦ elim r [
            | none ↦ c
            | some recipient ↦
                let remote = if not sender.is_self then sender else recipient in
                if sender.is_self && recipient.is_self
                then c
                else deliver_to type m remote.address c
          ]
        ])
    go none r = w
    go (some s) none = w
    go (some s) (some r) =
        let remote = if not s.is_self then s else r in
        either-IsWellFormed (s.is_self && r.is_self) c (deliver_to type m remote.address c) w
          (deliver_to-IsWellFormed type m remote.address c q w)

pub on_conversation_event-IsWellFormed :
    (event : ConversationEvent) (c : Client)
    → is_quiet_event event ≡ true
    → IsWellFormed c
    → IsWellFormed (on_conversation_event event c)
unfolding on_conversation_event
on_conversation_event-IsWellFormed event c q w = go event.msg q
  where
    go :
        (o : Option Message)
        → is_quiet_about event.type o ≡ true
        → IsWellFormed (elim o [
          | none ↦
              if is_conversation_populate event.type
              then check_if_populated (record c { populated_conversations = true })
              else c
          | some m ↦ on_message event.type m c
        ])
    go (some m) q' = on_message-IsWellFormed event.type m c q' w
    go none q' =
        either-IsWellFormed (is_conversation_populate event.type)
          (check_if_populated (record c { populated_conversations = true })) c
          (check_if_populated-IsWellFormed (record c { populated_conversations = true }) w.listed
            w.current_listed (λ h. ground (arith, w.ready, h)))
          w
