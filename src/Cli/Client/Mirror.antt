-- ===== src/Cli/Client/Mirror.antt =====
-- The frontend's list of contacts (ricochet-cli/client.go) behind the backend's (core/contactlist.go).
use ricochet_go.Common.{
  ℕ, Bool, true, false, Bytes, bytes_eq_iff, Dict, lookup, lookup-insert, if◌then◌else◌, is_some,
  Option, some, none, ◌≡◌, inl, inr, refl, ap, ◌∙◌, arith, Option-cases, List, [], ◌∷◌, ◌++◌,
}
use ricochet_go.Rpc.{
  ContactData, ContactRequest, ContactEvent, ContactEventType, ContactSubject, is_contact_populate,
}
use ricochet_go.Core.Contact.{Effect as ContactEffect}
use ricochet_go.Core.ContactList.{World, Effect, publish, contact_effect}
use ricochet_go.Cli.Contacts.{contact_updated}
use ricochet_go.Cli.Client.{
  Client, on_contact_event, on_subject, on_contact_subject, on_contact_updated, on_request_subject,
  announce, with_requests, end_populate,
}
use ricochet_go.Cli.Client.Population.{on_contact_events, on_contact_events-append}

-- The event that an effect of the backend publishes.
abbrev pub published_event : Effect → Option ContactEvent
published_event (publish e) = some e
published_event (contact_effect id (ContactEffect.publish e)) = some e
published_event _ = none

abbrev pub with_event : Option ContactEvent → List ContactEvent → List ContactEvent
with_event none events = events
with_event (some e) events = e ∷ events

unfoldable pub published_events : List Effect → List ContactEvent
published_events [] = []
published_events (e ∷ trace) = with_event (published_event e) (published_events trace)

with_event_append :
    (o : Option ContactEvent) (xs ys : List ContactEvent)
    → with_event o (xs ++ ys) ≡ with_event o xs ++ ys
with_event_append none xs ys = refl
with_event_append (some e) xs ys = refl

published_events-append :
    (xs ys : List Effect) → published_events (xs ++ ys) ≡ published_events xs ++ published_events ys
unfolding published_events
published_events-append [] ys = refl
published_events-append (x ∷ xs) ys =
    ap (with_event (published_event x)) (published_events-append xs ys)
    ∙ with_event_append (published_event x) (published_events xs) (published_events ys)

-- Events that tell of no new contact and of none that is gone.
abbrev pub keeps_contacts : ContactEventType → Option ContactSubject → Bool
keeps_contacts ContactEventType.add (some (ContactSubject.contact d)) = false
keeps_contacts ContactEventType.delete (some (ContactSubject.contact d)) = false
keeps_contacts _ _ = true

abbrev pub has_contact : Bytes → Client → Bool
has_contact a c = is_some (lookup a c.list.contacts)

-- Both clients list the same addresses.
pub record IsSameList (c c' : Client) : Type 0 where
  pub same_addresses : (a : Bytes) → has_contact a c' ≡ has_contact a c
  pub same_populated : c'.populated_contacts ≡ c.populated_contacts

IsSameList-refl : (c : Client) → IsSameList c c
IsSameList-refl c = record { same_addresses = λ a. refl; same_populated = refl }

on_contact_updated-IsSameList :
    (d : ContactData) (c : Client) → IsSameList c (on_contact_updated d c)
unfolding on_contact_updated
on_contact_updated-IsSameList d c = elim (Option-cases (lookup d.address c.list.contacts)) [
  | inl missing ↦ rw (missing, on_contact_updated) (IsSameList-refl c)
  | inr (k, there) ↦
      rw (there, on_contact_updated)
        (record {
          same_addresses = λ a. ground (
            arith,
            there,
            bytes_eq_iff d.address a,
            lookup-insert d.address a (contact_updated d k) c.list.contacts,
          );
          same_populated = refl;
        })
]

on_request_subject-IsSameList :
    (type : ContactEventType) (r : ContactRequest) (c : Client)
    → IsSameList c (on_request_subject type r c)
unfolding on_request_subject announce with_requests
on_request_subject-IsSameList ContactEventType.null r c = IsSameList-refl c
on_request_subject-IsSameList ContactEventType.populate r c = record {
  same_addresses = λ a. refl;
  same_populated = refl;
}
on_request_subject-IsSameList ContactEventType.add r c = record {
  same_addresses = λ a. refl;
  same_populated = refl;
}
on_request_subject-IsSameList ContactEventType.update r c = record {
  same_addresses = λ a. refl;
  same_populated = refl;
}
on_request_subject-IsSameList ContactEventType.delete r c = record {
  same_addresses = λ a. refl;
  same_populated = refl;
}

-- Once the contacts are populated, an event that populates is ignored.
pub populated_event :
    (e : ContactEvent) (c : Client)
    → c.populated_contacts ≡ true
    → on_contact_event e c
      ≡ (if is_contact_populate e.type then c else on_subject e.type e.subject c)
unfolding on_contact_event
populated_event e c h = rw h refl

pub on_subject-IsSameList :
    (type : ContactEventType) (subject : Option ContactSubject) (c : Client)
    → c.populated_contacts ≡ true
    → keeps_contacts type subject ≡ true
    → IsSameList c (if is_contact_populate type then c else on_subject type subject c)
unfolding on_subject on_contact_subject end_populate
on_subject-IsSameList ContactEventType.populate s c h k = IsSameList-refl c
on_subject-IsSameList ContactEventType.null none c h k = IsSameList-refl c
on_subject-IsSameList ContactEventType.add none c h k = IsSameList-refl c
on_subject-IsSameList ContactEventType.update none c h k = IsSameList-refl c
on_subject-IsSameList ContactEventType.delete none c h k = IsSameList-refl c
on_subject-IsSameList ContactEventType.null (some (ContactSubject.contact d)) c h k =
    IsSameList-refl c
on_subject-IsSameList ContactEventType.add (some (ContactSubject.contact d)) c h k = cc
on_subject-IsSameList ContactEventType.update (some (ContactSubject.contact d)) c h k =
    on_contact_updated-IsSameList d c
on_subject-IsSameList ContactEventType.delete (some (ContactSubject.contact d)) c h k = cc
on_subject-IsSameList ContactEventType.null (some (ContactSubject.request r)) c h k =
    on_request_subject-IsSameList ContactEventType.null r c
on_subject-IsSameList ContactEventType.add (some (ContactSubject.request r)) c h k =
    on_request_subject-IsSameList ContactEventType.add r c
on_subject-IsSameList ContactEventType.update (some (ContactSubject.request r)) c h k =
    on_request_subject-IsSameList ContactEventType.update r c
on_subject-IsSameList ContactEventType.delete (some (ContactSubject.request r)) c h k =
    on_request_subject-IsSameList ContactEventType.delete r c

-- The frontend, after the events published so far.
abbrev pub follower : Client → List Effect → Client
follower c trace = on_contact_events (published_events trace) c

-- It lists the addresses that the backend lists.
pub record MirrorsAt (c : Client) (contacts : Dict ℕ) (trace : List Effect) : Type 0 where
  pub same_addresses :
      (a : Bytes)
      → is_some (lookup a (follower c trace).list.contacts) ≡ is_some (lookup a contacts)
  pub populated : (follower c trace).populated_contacts ≡ true

abbrev pub Mirrors : Client → World → Type 0
Mirrors c w = MirrorsAt c w.contacts w.trace

pub follower_append :
    (c : Client) (trace : List Effect) (e : Effect)
    → follower c (trace ++ e ∷ [])
      ≡ on_contact_events (with_event (published_event e) []) (follower c trace)
unfolding published_events
follower_append c trace e =
    ap (λ l. on_contact_events l c) (published_events-append trace (e ∷ []))
    ∙ on_contact_events-append (published_events trace) (with_event (published_event e) []) c
