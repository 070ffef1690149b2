-- ===== src/Core/Requests/Adding.antt =====
-- core/contactlist.go: new contacts and new requests in the lists, and the removal of a contact.
use ricochet_go.Common.{
  ℕ, suc, ◌<◌, ◌≡◌, ◌⊎◌, inl, inr, refl, sym, ap, subst, ◌∙◌, Bool, true, false, Option, none, some,
  is_some, Bytes, bytes_eq, bytes_eq_iff, lookup, insert, lookup-insert, if◌then◌else◌, arith,
  Bool-cases, Option-cases, some_eq, none_not_some, ◌==◌, ==_iff,
}
use ricochet_go.Common.Exec.{Exec, done, Ends, EndsUnless, Ends-EndsUnless, EndsUnless-Ends}
use ricochet_go.Rpc.{ContactData}
use ricochet_go.Core.Address.{is_address_valid}
use ricochet_go.Core.Contact.{Contact, contact_from_config}
use ricochet_go.Core.ContactList.{
  World, AddResult, added, refused, address_exists, nickname_exists, invalid_address,
  create_contact, has_nickname, add_new_contact, taking, scan_blocks, is_named,
}
use ricochet_go.Core.Requests.Consistency.{IsFree, Consistent, Nearly, scan_free}

-- The world with a new contact in it.
pub record HasAdded (d : ContactData) (w : World) (id : ℕ) (w' : World) : Type 0 where
  pub fresh : id ≡ w.next
  pub valid : is_address_valid d.address ≡ true
  pub not_listed : lookup d.address w.contacts ≡ none
  pub no_namesake : has_nickname w.contact_at d.nickname w.contacts ≡ false
  pub listed :
      (a : Bytes)
      → lookup a w'.contacts ≡ (if bytes_eq d.address a then some id else lookup a w.contacts)
  pub address : (w'.contact_at id).contact_data.address ≡ d.address
  pub request : (w'.contact_at id).contact_data.request ≡ d.request
  pub others : (i : ℕ) → i < w.next → w'.contact_at i ≡ w.contact_at i
  pub next : w'.next ≡ suc w.next
  pub requests : w'.requests ≡ w.requests
  pub request_at : w'.request_at ≡ w.request_at
  pub listens : w'.listens ≡ w.listens
  pub held :
      (i : ℕ) → (w'.contact_at i).locked ≡ (if id == i then false else (w.contact_at i).locked)
  pub list_locked : w'.list_locked ≡ w.list_locked
  pub request_locked : w'.request_locked ≡ w.request_locked

-- A refusal leaves the lists alone; an address that is not valid leaves the data in the configuration.
abbrev pub Added : ContactData → World → AddResult → World → Type 0
Added d w (added id) w' = HasAdded d w id w'
Added d w (refused e) w' =
    ((e ≡ address_exists) × (is_some (lookup d.address w.contacts) ≡ true) × (w' ≡ w))
    ⊎ ((e ≡ nickname_exists) × (has_nickname w.contact_at d.nickname w.contacts ≡ true) × (w' ≡ w))
    ⊎ ((e ≡ invalid_address)
        × (is_address_valid d.address ≡ false)
        × (w' ≡ record w { config = insert d.address d w.config }))

pub loaded_address :
    (d : ContactData) (c : Contact)
    → contact_from_config d ≡ some c
    → (is_address_valid d.address ≡ true)
      × (c.contact_data.address ≡ d.address)
      × (c.contact_data.request ≡ d.request)
      × (c.locked ≡ false)
unfolding contact_from_config
loaded_address d c e = elim (Bool-cases (is_address_valid d.address)) [
  | inl v ↦
      let p = some_eq _ c (rw v at e) in
      (
        v,
        ap (λ k. k.contact_data.address) (sym p),
        ap (λ k. k.contact_data.request) (sym p),
        ap (λ k. k.locked) (sym p),
      )
  | inr v ↦ absurd (none_not_some (rw v at e))
]

not_loaded : (d : ContactData) → contact_from_config d ≡ none → is_address_valid d.address ≡ false
unfolding contact_from_config
not_loaded d e = ground arith

none_of : {A : Type 0} (o : Option A) → is_some o ≡ false → o ≡ none
none_of none h = refl
none_of (some x) h = cc

-- The mutex of the list is held, or that of a contact whose nickname is read.
abbrev pub Obstructed : ContactData → World → Type 0
Obstructed d w =
    (w.list_locked ≡ true) ⊎ (scan_blocks w.contact_at (is_named d.nickname) w.contacts ≡ true)

taking_either :
    {A : Type 0} (held : Bool) (w : World) (D : Type 0) (P : A → World → Type 0) (m : Exec World A)
    → (held ≡ true → D)
    → EndsUnless D P m
    → EndsUnless D P (taking held w m)
taking_either true w D P m e h = e refl
taking_either false w D P m e h = h

-- With the mutexes taken, for an address that is not listed.
unlisted_outcome :
    (d : ContactData) (w : World)
    → is_some (lookup d.address w.contacts) ≡ false
    → Ends
        (λ r w'. Added d w r w')
        (if has_nickname w.contact_at d.nickname w.contacts
          then done (refused nickname_exists) w
          else create_contact d (record w { config = insert d.address d w.config }))
unfolding create_contact
unlisted_outcome d w h = elim (Bool-cases (has_nickname w.contact_at d.nickname w.contacts)) [
  | inl n ↦ rw (n, Ends) (inr (inl (refl, n, refl)))
  | inr n ↦ elim (Option-cases (contact_from_config d)) [
    | inl e ↦ rw (n, create_contact, e, Ends) (inr (inr (refl, not_loaded d e, refl)))
    | inr (c, e) ↦
        let (v, a, q, free) = loaded_address d c e in
        rw (n, create_contact, e, Ends)
          (record {
            fresh = refl;
            valid = v;
            not_listed = none_of _ h;
            no_namesake = n;
            listed = λ b. lookup-insert d.address b w.next w.contacts;
            address = rw ((==_iff w.next w.next).1 refl) a;
            request = rw ((==_iff w.next w.next).1 refl) q;
            others = λ i l. let differs : (w.next == i) ≡ false = ground arith in rw differs;
            next = refl;
            requests = refl;
            request_at = refl;
            listens = refl;
            held = λ i. elim (Bool-cases (w.next == i)) [ inl s ↦ rw s free | inr s ↦ rw s ];
            list_locked = refl;
            request_locked = refl;
          })
  ]
]

-- `AddNewContact` adds a contact exactly if its address is valid and neither its address nor its
-- nickname is that of a contact. The new contact is a new object, listed under its address, and every
-- other contact and the requests stay. A refusal changes nothing, but for an invalid address, which
-- the configuration keeps. It blocks only if the mutex of the list is held, or that of a contact whose
-- nickname it reads.
pub add_new_contact_outcome :
    (d : ContactData) (w : World)
    → EndsUnless (Obstructed d w) (λ r w'. Added d w r w') (add_new_contact d w)
unfolding add_new_contact
add_new_contact_outcome d w =
    taking_either w.list_locked w (Obstructed d w) (Added d w) _ (λ e. inl e)
      (elim (Bool-cases (is_some (lookup d.address w.contacts))) [
        | inl h ↦ rw (h, EndsUnless) (inl (refl, h, refl))
        | inr h ↦ rw h (
            taking_either (scan_blocks w.contact_at (is_named d.nickname) w.contacts) w
              (Obstructed d w) (Added d w) _ (λ e. inr e)
              (Ends-EndsUnless (Obstructed d w) (Added d w) _ (unlisted_outcome d w h)))
      ])

-- With every mutex free it does not block.
pub add_new_contact-Added :
    (d : ContactData) (w : World) → IsFree w → Ends (λ r w'. Added d w r w') (add_new_contact d w)
add_new_contact-Added d w free =
    EndsUnless-Ends (Obstructed d w) (Added d w) (add_new_contact d w) blocked
      (add_new_contact_outcome d w)
  where
    blocked : Obstructed d w → ⊥
    blocked (inl h) = let e = free.list in cc
    blocked (inr h) =
        let e = scan_free w.contact_at (is_named d.nickname) w.contacts free.contacts in cc

pub HasAdded-Nearly :
    (d : ContactData) (w : World) (id : ℕ) (w' : World)
    → HasAdded d w id w'
    → Consistent w
    → Nearly d.address w'
HasAdded-Nearly d w id w' h c = record {
  contacts_own = λ a i l. elim (Bool-cases (bytes_eq d.address a)) [
    | inl e ↦
        let same : id ≡ i = some_eq id i (rw e at (sym (h.listed a) ∙ l)) in
        (
          subst (λ k. (w'.contact_at k).contact_data.address ≡ a) same
              (h.address ∙ (bytes_eq_iff d.address a).0 e),
          omega (arith, h.fresh, h.next, same),
        )
    | inr e ↦
        let (own, lt) = c.contacts_own a i (rw e at (sym (h.listed a) ∙ l)) in
        (ap (λ k. k.contact_data.address) (h.others i lt) ∙ own, omega (arith, lt, h.next))
  ];
  requests_own = λ a i l.
      let (own, lt) = c.requests_own a i (rw h.requests at l) in
      (ap (λ f. (f i).request_data.address) h.request_at ∙ own, omega (arith, lt, h.next));
  pending = λ a i l.
      inr (ap (λ f. (f i).request_data.rejected) h.request_at ∙ c.pending a i (rw h.requests at l));
  apart = λ a. elim (Bool-cases (bytes_eq d.address a)) [
    | inl e ↦ inl ((bytes_eq_iff d.address a).0 e)
    | inr e ↦ elim (c.apart a) [
      | inl p ↦ inr (inl (rw (h.listed a, e) p))
      | inr p ↦ inr (inr (rw h.requests p))
    ]
  ];
  free = record {
    list = h.list_locked ∙ c.free.list;
    contacts = λ i. h.held i ∙ ground (arith, c.free.contacts i);
    requests = λ i. ap (λ f. f i) h.request_locked ∙ c.free.requests i;
  };
}
