-- ===== src/Cli/Client/Population.antt =====
-- The first events of the stream of contacts: what core/rpcserver.go sends, and what
-- ricochet-cli/client.go makes of it.
use ricochet_go.Common.{
  ℕ, Bool, true, false, Bytes, bytes_eq, bytes_eq_iff, Dict, lookup, lookup-insert, if◌then◌else◌,
  Option, some, none, ◌≡◌, inl, inr, refl, sym, ap, subst, ◌∙◌, arith, Option-cases, List, [], ◌∷◌,
  ◌++◌, map, All,
}
use ricochet_go.Rpc.{ContactData, ContactEvent, ContactEventType}
use ricochet_go.Core.ContactList.{World}
use ricochet_go.Core.RpcServer.{populate_contact, contact_data_list, contact_population}
use ricochet_go.Cli.Contacts.{Contact, init_contact, add_contact}
use ricochet_go.Cli.Client.{
  Client, on_contact_event, on_contact_subject, on_contact_added, on_subject, end_populate,
  check_if_populated,
}

-- The events of a stream, one at a time.
unfoldable pub on_contact_events : List ContactEvent → Client → Client
on_contact_events [] c = c
on_contact_events (event ∷ events) c = on_contact_events events (on_contact_event event c)

pub on_contact_events-append :
    (xs ys : List ContactEvent) (c : Client)
    → on_contact_events (xs ++ ys) c ≡ on_contact_events ys (on_contact_events xs c)
unfolding on_contact_events
on_contact_events-append [] ys c = refl
on_contact_events-append (x ∷ xs) ys c = on_contact_events-append xs ys (on_contact_event x c)

abbrev pub or_else : Option Contact → Option Contact → Option Contact
or_else none o = o
or_else (some k) o = some k

-- A contact of the backend as the frontend lists it, with an empty conversation.
abbrev pub as_listed : Bytes → World → Option ℕ → Option Contact
as_listed identity w none = none
as_listed identity w (some id) = some (init_contact identity (w.contact_at id).contact_data)

pub record IsAdded (a : Bytes) (k : Contact) (c c' : Client) : Type 0 where
  pub same_identity : c'.identity ≡ c.identity
  pub same_requests : c'.list.requests ≡ c.list.requests
  pub same_populated : c'.populated_contacts ≡ c.populated_contacts
  pub found :
      (b : Bytes)
      → lookup b c'.list.contacts
        ≡ or_else (lookup b c.list.contacts) (if bytes_eq a b then some k else none)

pub on_contact_added-IsAdded :
    (d : ContactData) (c : Client)
    → IsAdded d.address (init_contact c.identity d) c (on_contact_added d c)
unfolding on_contact_added add_contact
on_contact_added-IsAdded d c = elim (Option-cases (lookup d.address c.list.contacts)) [
  | inr (k, there) ↦
      rw (there, on_contact_added, add_contact)
        (record {
          same_identity = refl;
          same_requests = refl;
          same_populated = refl;
          found = λ b. ground (arith, there, bytes_eq_iff d.address b);
        })
  | inl missing ↦
      rw (missing, on_contact_added, add_contact)
        (record {
          same_identity = refl;
          same_requests = refl;
          same_populated = refl;
          found = λ b. ground (
            arith,
            missing,
            bytes_eq_iff d.address b,
            lookup-insert d.address b (init_contact c.identity d) c.list.contacts,
          );
        })
]

populating :
    (d : ContactData) (c : Client)
    → c.populated_contacts ≡ false
    → on_contact_event (populate_contact d) c ≡ on_contact_added d c
unfolding on_contact_event on_subject on_contact_subject
populating d c h = rw h refl

-- Each contact of the backend is stored under its own address.
abbrev pub AreOwn : World → Dict ℕ → Type 0
AreOwn w = All (λ (e : Bytes × ℕ). (w.contact_at e.1).contact_data.address ≡ e.0)

combine :
    (o : Option Contact) (b : Bool) (identity : Bytes) (w : World) (id : ℕ) (r : Option ℕ)
    → or_else
        (or_else o (if b then as_listed identity w (some id) else none))
        (as_listed identity w r)
      ≡ or_else o (as_listed identity w (if b then some id else r))
combine none true identity w id r = refl
combine none false identity w id r = refl
combine (some k) b identity w id r = refl

record IsFilled (w : World) (m : Dict ℕ) (c c' : Client) : Type 0 where
  same_identity : c'.identity ≡ c.identity
  same_requests : c'.list.requests ≡ c.list.requests
  not_populated : c'.populated_contacts ≡ false
  found :
      (b : Bytes)
      → lookup b c'.list.contacts
        ≡ or_else (lookup b c.list.contacts) (as_listed c.identity w (lookup b m))

or_else-none : (o : Option Contact) → or_else o none ≡ o
or_else-none none = refl
or_else-none (some k) = refl

fill :
    (w : World) (m : Dict ℕ) (c : Client)
    → c.populated_contacts ≡ false
    → AreOwn w m
    → IsFilled w m c (on_contact_events (map populate_contact (contact_data_list w m)) c)
unfolding on_contact_events contact_data_list lookup
fill w [] c h own = record {
  same_identity = refl;
  same_requests = refl;
  not_populated = h;
  found = λ b. sym (or_else-none (lookup b c.list.contacts));
}
fill w ((a, id) ∷ m) c h own =
    let d = (w.contact_at id).contact_data in
    let k = init_contact c.identity d in
    let c1 = on_contact_added d c in
    let add = on_contact_added-IsAdded d c in
    let later = fill w m c1 (add.same_populated ∙ h) own.1 in
    subst
      (λ x.
        IsFilled w ((a, id) ∷ m) c
          (on_contact_events (map populate_contact (contact_data_list w m)) x))
      (sym (populating d c h))
      (record {
        same_identity = later.same_identity ∙ add.same_identity;
        same_requests = later.same_requests ∙ add.same_requests;
        not_populated = later.not_populated;
        found = λ b.
            (later.found b
              ∙ (ap (λ i. or_else (lookup b c1.list.contacts) (as_listed i w (lookup b m)))
                    add.same_identity
                  ∙ (ap (λ o. or_else o (as_listed c.identity w (lookup b m))) (add.found b)
                      ∙ (ap
                            (λ x.
                              or_else
                                (or_else (lookup b c.list.contacts)
                                  (if bytes_eq x b then some k else none))
                                (as_listed c.identity w (lookup b m)))
                            own.0
                          ∙ combine (lookup b c.list.contacts) (bytes_eq a b) c.identity w id
                              (lookup b m)))));
      })

ending :
    (c : Client)
    → c.populated_contacts ≡ false
    → let c' = on_contact_event (record { type = ContactEventType.populate; subject = none }) c in
      (c'.list ≡ c.list) × (c'.populated_contacts ≡ true)
unfolding on_contact_event on_subject end_populate check_if_populated
ending c h = ground (arith, h)

-- What the server sends first to a client that lists no contacts gives the client exactly the server's contacts,
-- with their data and empty conversations, if each is stored under its own address, whatever order they come in. The client then takes the
-- contacts as populated, and no inbound request of the server has been told of.
pub on_contact_events-contact_population :
    (w : World) (c : Client)
    → c.populated_contacts ≡ false
    → c.list.contacts ≡ []
    → AreOwn w w.contacts
    → let c' = on_contact_events (contact_population w) c in
      ((a : Bytes) → lookup a c'.list.contacts ≡ as_listed c.identity w (lookup a w.contacts))
      × (c'.list.requests ≡ c.list.requests)
      × (c'.populated_contacts ≡ true)
unfolding contact_population
on_contact_events-contact_population w c h empty own =
    let events = map populate_contact (contact_data_list w w.contacts) in
    let c1 = on_contact_events events c in
    let f = fill w w.contacts c h own in
    let (same, done) = ending c1 f.not_populated in
    let nothing : (a : Bytes) → lookup a c.list.contacts ≡ none =
      λ a. (ap (lookup a) empty ∙ unfold lookup in refl) in
    rw
      (on_contact_events-append events
        (record { type = ContactEventType.populate; subject = none } ∷ []) c)
      (unfold on_contact_events in
        (
          λ a.
              (ap (λ l. lookup a l.contacts) same
                ∙ (f.found a
                    ∙ ap (λ o. or_else o (as_listed c.identity w (lookup a w.contacts)))
                        (nothing a))),
          ap (λ l. l.requests) same ∙ f.same_requests,
          done,
        ))
