-- ===== src/Cli/Client/Following.antt =====
-- The frontend (ricochet-cli/client.go) follows every call on the contact list of the backend
-- (core/contactlist.go, core/inboundcontactrequest.go).
use ricochet_go.Common.{
  ℕ, Bool, true, false, Bytes, bytes_eq, bytes_eq_iff, Dict, lookup, insert, erase, lookup-insert,
  lookup-erase, if◌then◌else◌, is_some, Option, some, none, ◌≡◌, inl, inr, refl, sym, ap, subst,
  ◌∙◌, arith, Option-cases, List, [], ◌∷◌, ◌++◌, append_assoc, append-nil, All,
}
use ricochet_go.Common.Exec.{Exec, IfEnds}
use ricochet_go.Rpc.{ContactData, ContactEvent, ContactEventType, ContactSubject}
use ricochet_go.Core.Contact.{Contact, contact_from_config}
use ricochet_go.Core.ContactList.{
  World, Effect, publish, contact_event, start_connection, stop_connection, add_new_contact,
  create_contact, taking, scan_blocks, is_named, has_nickname, remove_contact, is_listed,
}
use ricochet_go.Cli.Contacts.{Contact as Listed, delete_contact, init_contact}
use ricochet_go.Cli.Client.{
  Client, on_subject, on_contact_subject, on_contact_added, on_contact_deleted,
}
use ricochet_go.Cli.Client.Population.{or_else, on_contact_events, on_contact_added-IsAdded}
use ricochet_go.Cli.Client.Mirror.{
  published_event, with_event, keeps_contacts, has_contact, populated_event, on_subject-IsSameList,
  follower, MirrorsAt, Mirrors, follower_append,
}

abbrev pub keeps_event : Option ContactEvent → Bool
keeps_event none = true
keeps_event (some e) = keeps_contacts e.type e.subject

abbrev pub Keeps : List Effect → Type 0
Keeps = All (λ e. keeps_event (published_event e) ≡ true)

kept :
    (o : Option ContactEvent) (c : Client) (contacts : Dict ℕ)
    → keeps_event o ≡ true
    → ((a : Bytes) → has_contact a c ≡ is_some (lookup a contacts))
    → c.populated_contacts ≡ true
    → let c' = on_contact_events (with_event o []) c in
      ((a : Bytes) → has_contact a c' ≡ is_some (lookup a contacts))
      × (c'.populated_contacts ≡ true)
unfolding on_contact_events
kept none c contacts k same p = (same, p)
kept (some e) c contacts k same p =
    let s = on_subject-IsSameList e.type e.subject c p k in
    rw (populated_event e c p) (λ a. s.same_addresses a ∙ same a, s.same_populated ∙ p)

push :
    (c : Client) (contacts : Dict ℕ) (trace : List Effect) (e : Effect)
    → keeps_event (published_event e) ≡ true
    → MirrorsAt c contacts trace
    → MirrorsAt c contacts (trace ++ e ∷ [])
push c contacts trace e k m =
    let (same, p) =
      kept (published_event e) (follower c trace) contacts k m.same_addresses m.populated in
    let moved = follower_append c trace e in
    record {
      same_addresses = λ a. ap (has_contact a) moved ∙ same a;
      populated = ap (λ x. x.populated_contacts) moved ∙ p;
    }

pub push_all :
    (c : Client) (contacts : Dict ℕ) (trace effects : List Effect)
    → Keeps effects
    → MirrorsAt c contacts trace
    → MirrorsAt c contacts (trace ++ effects)
push_all c contacts trace [] k m = rw append-nil m
push_all c contacts trace (e ∷ effects) k m =
    subst (MirrorsAt c contacts) (append_assoc trace (e ∷ []) effects)
      (push_all c contacts (trace ++ e ∷ []) effects k.1 (push c contacts trace e k.0 m))

add_present :
    (o : Option Listed) (b : Bool) (k : Listed)
    → is_some (or_else o (if b then some k else none)) ≡ (if b then true else is_some o)
add_present none true k = refl
add_present none false k = refl
add_present (some l) true k = refl
add_present (some l) false k = refl

insert_present :
    (a b : Bytes) (id : ℕ) (contacts : Dict ℕ)
    → is_some (lookup b (insert a id contacts))
      ≡ (if bytes_eq a b then true else is_some (lookup b contacts))
insert_present a b id contacts = ground (arith, lookup-insert a b id contacts)

push_added :
    (c : Client) (contacts : Dict ℕ) (trace : List Effect) (d : ContactData) (a : Bytes) (id : ℕ)
    → d.address ≡ a
    → MirrorsAt c contacts trace
    → MirrorsAt c (insert a id contacts) (trace ++ contact_event ContactEventType.add d ∷ [])
push_added c contacts trace d a id own m =
    let e : ContactEvent = record {
      type = ContactEventType.add;
      subject = some (ContactSubject.contact d);
    } in
    let f = follower c trace in
    let add = on_contact_added-IsAdded d f in
    let moved : follower c (trace ++ publish e ∷ []) ≡ on_contact_added d f =
      follower_append c trace (publish e)
      ∙ (unfold on_contact_events on_subject on_contact_subject in
          populated_event e f m.populated) in
    record {
      same_addresses = λ b. ap (has_contact b) moved ∙ listed b (add.found b) (m.same_addresses b);
      populated = ap (λ x. x.populated_contacts) moved ∙ (add.same_populated ∙ m.populated);
    }
  where
    listed :
        (b : Bytes)
        → lookup b (on_contact_added d (follower c trace)).list.contacts
          ≡ or_else (lookup b (follower c trace).list.contacts) (
              if bytes_eq d.address b
              then some (init_contact (follower c trace).identity d)
              else none)
        → has_contact b (follower c trace) ≡ is_some (lookup b contacts)
        → has_contact b (on_contact_added d (follower c trace))
          ≡ is_some (lookup b (insert a id contacts))
    listed b found same =
        ap is_some found
        ∙ (add_present (lookup b (follower c trace).list.contacts) (bytes_eq d.address b)
              (init_contact (follower c trace).identity d)
            ∙ (ap (λ p. if bytes_eq d.address b then true else p) same
                ∙ (ap (λ x. if bytes_eq x b then true else is_some (lookup b contacts)) own
                    ∙ sym (insert_present a b id contacts))))

push_deleted :
    (c : Client) (contacts : Dict ℕ) (trace : List Effect) (d : ContactData)
    → MirrorsAt c contacts trace
    → MirrorsAt c (erase d.address contacts) (trace ++ contact_event ContactEventType.delete d ∷ [])
push_deleted c contacts trace d m =
    let e : ContactEvent = record {
      type = ContactEventType.delete;
      subject = some (ContactSubject.contact d);
    } in
    let f = follower c trace in
    let moved : follower c (trace ++ publish e ∷ []) ≡ on_contact_deleted d.address f =
      follower_append c trace (publish e)
      ∙ (unfold on_contact_events on_subject on_contact_subject in
          populated_event e f m.populated) in
    let (gone, p) = deleted d.address f in
    record {
      same_addresses = λ b.
          ap (has_contact b) moved
          ∙ (gone b ∙ ground (arith, m.same_addresses b, lookup-erase d.address b contacts));
      populated = ap (λ x. x.populated_contacts) moved ∙ (p ∙ m.populated);
    }
  where
    deleted :
        (a : Bytes) (f : Client)
        → ((b : Bytes)
            → has_contact b (on_contact_deleted a f)
              ≡ (if bytes_eq a b then false else has_contact b f))
          × ((on_contact_deleted a f).populated_contacts ≡ f.populated_contacts)
    deleted a f = elim (Option-cases (lookup a f.list.contacts)) [
      | inl missing ↦
          unfold on_contact_deleted delete_contact in
          rw (missing, on_contact_deleted, delete_contact)
            (λ b. ground (arith, missing, bytes_eq_iff a b), refl)
      | inr (k, there) ↦
          unfold on_contact_deleted delete_contact in
          rw (there, on_contact_deleted, delete_contact)
            (λ b. ground (arith, lookup-erase a b f.list.contacts), refl)
    ]

loaded_address :
    (d : ContactData) (k : Contact)
    → contact_from_config d ≡ some k
    → k.contact_data.address ≡ d.address
unfolding contact_from_config
loaded_address d k h = ground arith

create_contact-Mirrors :
    (c : Client) (d : ContactData) (w : World)
    → Mirrors c w
    → IfEnds (λ _ w'. Mirrors c w') (create_contact d w)
unfolding create_contact
create_contact-Mirrors c d w m = elim (Option-cases (contact_from_config d)) [
  | inl bad ↦ rw (bad, create_contact, IfEnds) m
  | inr (k, loaded) ↦
      let added_event = contact_event ContactEventType.add k.contact_data in
      rw (loaded, create_contact, IfEnds)
        (subst (MirrorsAt c (insert d.address w.next w.contacts))
          (append_assoc w.trace (added_event ∷ []) (start_connection w.next ∷ []))
          (push c (insert d.address w.next w.contacts) (w.trace ++ added_event ∷ [])
            (start_connection w.next) refl
            (push_added c w.contacts w.trace k.contact_data d.address w.next
              (loaded_address d k loaded) m)))
]

pub either-Mirrors :
    {A : Type 0} (b : Bool) (c : Client) (x y : Exec World A)
    → IfEnds (λ _ w'. Mirrors c w') x
    → IfEnds (λ _ w'. Mirrors c w') y
    → IfEnds (λ _ w'. Mirrors c w') (if b then x else y)
either-Mirrors true c x y h k = h
either-Mirrors false c x y h k = k

-- Where a mutex is taken.
pub taking-Mirrors :
    {A : Type 0} (held : Bool) (w : World) (c : Client) (m : Exec World A)
    → IfEnds (λ _ w'. Mirrors c w') m
    → IfEnds (λ _ w'. Mirrors c w') (taking held w m)
taking-Mirrors true w c m h = tt
taking-Mirrors false w c m h = h

pub add_new_contact-Mirrors :
    (c : Client) (d : ContactData) (w : World)
    → Mirrors c w
    → IfEnds (λ _ w'. Mirrors c w') (add_new_contact d w)
unfolding add_new_contact
add_new_contact-Mirrors c d w m =
    let w1 = record w { config = insert d.address d w.config } in
    taking-Mirrors w.list_locked w c _ (
      either-Mirrors (is_some (lookup d.address w.contacts)) c _ _ m (
        taking-Mirrors (scan_blocks w.contact_at (is_named d.nickname) w.contacts) w c _ (
          either-Mirrors (has_nickname w.contact_at d.nickname w.contacts) c _ _ m (
            create_contact-Mirrors c d w1
              (record { same_addresses = m.same_addresses; populated = m.populated })))))

pub remove_contact-Mirrors :
    (c : Client) (id : ℕ) (w : World)
    → Mirrors c w
    → IfEnds (λ _ w'. Mirrors c w') (remove_contact id w)
unfolding remove_contact
remove_contact-Mirrors c id w m =
    let a = (w.contact_at id).contact_data.address in
    taking-Mirrors w.list_locked w c _ (
      taking-Mirrors (w.contact_at id).locked w c _ (
        either-Mirrors (is_listed id (lookup a w.contacts)) c _ _
          (subst (MirrorsAt c (erase a w.contacts))
            (append_assoc w.trace (stop_connection id ∷ [])
              (contact_event ContactEventType.delete _ ∷ []))
            (push_deleted c w.contacts (w.trace ++ stop_connection id ∷ []) _
              (push c w.contacts w.trace (stop_connection id) refl m)))
          m))
