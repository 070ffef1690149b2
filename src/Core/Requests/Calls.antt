-- ===== src/Core/Requests/Calls.antt =====
-- core/contactlist.go, core/inboundcontactrequest.go: each call keeps the lists consistent.
use ricochet_go.Common.{
  ℕ, ◌≡◌, ◌⊎◌, inl, inr, refl, sym, ap, subst, ◌∙◌, true, false, Option, none, some, is_some, [],
  Bytes, bytes_eq, bytes_eq_iff, lookup, insert, erase, lookup-insert, lookup-erase, arith,
  Bool-cases, Option-cases, some_eq, ◌==◌, ==_iff,
}
use ricochet_go.Common.Exec.{
  done, IsBlocked, blocked_in, Ends, Ends-map, Ends-then, EndsUnless, EndsUnless-bind,
  Ends-EndsUnless, ◌>>=◌, ◌>>◌, return,
}
use ricochet_go.Rpc.{ContactData, ContactRequest}
use ricochet_go.Core.Contact.{Clock, accepted, update_contact_request}
use ricochet_go.Core.Contact.Locking.{request_blocks}
use ricochet_go.Core.ContactList.{
  World, update_at, AddError, AddResult, added, refused, add_new_contact, taking, scan_blocks,
  is_listed, remove_contact, on_contact,
}
use ricochet_go.Core.InboundRequest.{create_inbound_contact_request, update}
use ricochet_go.Core.Requests.{
  refusal, match_inbound, add_contact_request, find_contact, from_contact, new_request, is_at,
  Received, add_or_update_inbound_contact_request, outbound_data,
}
use ricochet_go.Core.Requests.Consistency.{
  Consistent, Same, Nearly-Consistent, Consistent-Same, no_contact, scan_free, Ends-taking,
  EndsUnless-taking,
}
use ricochet_go.Core.Requests.Steps.{Same-refl, update-Same}
use ricochet_go.Core.Requests.Adding.{Added, add_new_contact-Added, HasAdded-Nearly}

pub remove_contact-Consistent :
    (id : ℕ) (w : World) → Consistent w → Ends (λ _ w'. Consistent w') (remove_contact id w)
unfolding remove_contact
remove_contact-Consistent id w c = Ends-taking w.list_locked w _ _ c.free.list (
    Ends-taking (w.contact_at id).locked w _ _ (c.free.contacts id)
      (elim (Bool-cases (is_listed id (lookup (w.contact_at id).contact_data.address w.contacts))) [
        | inr e ↦ rw (e, Ends) c
        | inl e ↦
            rw (e, Ends)
              (record {
                contacts_own = λ a i l.
                    let (own, lt) = c.contacts_own a i (kept _ a i l) in (ap_address a i own, lt);
                requests_own = c.requests_own;
                pending = c.pending;
                apart = λ a. elim (c.apart a) [ inl p ↦ inl (missing _ a p) | inr p ↦ inr p ];
                free = record {
                  list = c.free.list;
                  contacts = λ i. still_free i;
                  requests = c.free.requests;
                };
              })
      ]))
  where
    kept :
        (k a : Bytes) (i : ℕ)
        → lookup a (erase k w.contacts) ≡ some i
        → lookup a w.contacts ≡ some i
    kept k a i l = ground (arith, lookup-erase k a w.contacts)

    missing : (k a : Bytes) → lookup a w.contacts ≡ none → lookup a (erase k w.contacts) ≡ none
    missing k a l = ground (arith, lookup-erase k a w.contacts)

    still_free :
        (i : ℕ)
        → (update_at id (record (w.contact_at id) { conn_enabled = false }) w.contact_at i).locked
          ≡ false
    still_free i = elim (Bool-cases (id == i)) [
      | inl e ↦ rw e (c.free.contacts id)
      | inr e ↦ rw e (c.free.contacts i)
    ]

    ap_address :
        (a : Bytes) (i : ℕ)
        → (w.contact_at i).contact_data.address ≡ a
        → (update_at id
            (record (w.contact_at id) { conn_enabled = false })
            w.contact_at
            i).contact_data.address
          ≡ a
    ap_address a i own = elim (Bool-cases (id == i)) [
      | inl e ↦ rw e (ap (λ k. (w.contact_at k).contact_data.address) ((==_iff id i).0 e) ∙ own)
      | inr e ↦ rw e own
    ]

new_request-Consistent :
    (clock : Clock) (address nickname message : Bytes) (w : World)
    → Consistent w
    → lookup address w.requests ≡ none
    → lookup address w.contacts ≡ none
    → Ends (λ _ w'. Consistent w') (new_request clock address nickname message w)
unfolding new_request create_inbound_contact_request
new_request-Consistent clock address nickname message w c no_request no_one = record {
  contacts_own = λ a i l. let (own, lt) = c.contacts_own a i l in (own, omega (arith, lt));
  requests_own = λ a i l. elim (split a i l) [
    | inl (here, e) ↦ (rw (sym e, (==_iff w.next w.next).1 refl) here, omega (arith, e))
    | inr l' ↦
        let (own, lt) = c.requests_own a i l' in
        let old : (w.next == i) ≡ false = ground arith in (rw old own, omega (arith, lt))
  ];
  pending = λ a i l. elim (split a i l) [
    | inl (here, e) ↦ rw (sym e, (==_iff w.next w.next).1 refl)
    | inr l' ↦
        let (own, lt) = c.requests_own a i l' in
        let old : (w.next == i) ≡ false = ground arith in rw old (c.pending a i l')
  ];
  apart = λ a. elim (Bool-cases (bytes_eq address a)) [
    | inl e ↦ inl (ap (λ k. lookup k w.contacts) (sym ((bytes_eq_iff address a).0 e)) ∙ no_one)
    | inr e ↦ elim (c.apart a) [
      | inl p ↦ inl p
      | inr p ↦ inr (rw (lookup-insert address a w.next w.requests, e) p)
    ]
  ];
  free = record { list = c.free.list; contacts = c.free.contacts; requests = c.free.requests };
}
  where
    split :
        (a : Bytes) (i : ℕ)
        → lookup a (insert address w.next w.requests) ≡ some i
        → ((address ≡ a) × (w.next ≡ i)) ⊎ (lookup a w.requests ≡ some i)
    split a i l = elim (Bool-cases (bytes_eq address a)) [
      | inl e ↦ inl (
        (bytes_eq_iff address a).0 e,
        some_eq _ i (rw e at (sym (lookup-insert address a w.next w.requests) ∙ l)),
      )
      | inr e ↦ inr (rw e at (sym (lookup-insert address a w.next w.requests) ∙ l))
    ]

pub on_contact_blocks :
    (clock : Clock) (id : ℕ) (w : World) (r : ContactRequest)
    → (w.contact_at id).contact_data.request ≡ some r
    → IsBlocked (on_contact (update_contact_request clock accepted) id w)
unfolding on_contact
on_contact_blocks clock id w r q =
    let (s, stuck) = blocked_in _ (
      request_blocks clock accepted
        (record { contact = w.contact_at id; config = w.config; trace = [] }) r q) in
    rw stuck tt

-- The contact of the address has a request.
abbrev pub HasRequest : Bytes → World → Type 0
HasRequest a w =
    (id : ℕ) × (r : ContactRequest) × (find_contact w.contact_at a w.contacts ≡ some id)
    × ((w.contact_at id).contact_data.request ≡ some r)

from_contact-Consistent :
    (clock : Clock) (a : Bytes) (id : ℕ) (w : World)
    → find_contact w.contact_at a w.contacts ≡ some id
    → Consistent w
    → EndsUnless (HasRequest a w) (λ _ w'. Consistent w') (from_contact clock id w)
unfolding from_contact
from_contact-Consistent clock a id w f c =
    elim (Option-cases (w.contact_at id).contact_data.request) [
      | inl e ↦ rw (e, EndsUnless) c
      | inr (r, e) ↦
          let (s, stuck) = blocked_in _ (on_contact_blocks clock id w r e) in
          rw (e, stuck, EndsUnless) (id, r, f, e)
    ]

pub add_or_update-Consistent :
    (clock : Clock) (address nickname message : Bytes) (w : World)
    → Consistent w
    → EndsUnless
        (HasRequest address w)
        (λ _ w'. Consistent w')
        (add_or_update_inbound_contact_request clock address nickname message w)
unfolding add_or_update_inbound_contact_request
add_or_update-Consistent clock address nickname message w c =
    EndsUnless-taking w.list_locked w (HasRequest address w) (λ _ w'. Consistent w') _ c.free.list
      (go (lookup address w.requests) refl (find_contact w.contact_at address w.contacts) refl)
  where
    go :
        (q : Option ℕ)
        → lookup address w.requests ≡ q
        → (p : Option ℕ) → find_contact w.contact_at address w.contacts ≡ p
        → EndsUnless
            (HasRequest address w)
            (λ _ w'. Consistent w')
            (elim q [
              | some id ↦ (update id nickname message >> return (some id, none)) w
              | none ↦ taking (scan_blocks w.contact_at (is_at address) w.contacts) w (elim p [
                | some id ↦ from_contact clock id w
                | none ↦ new_request clock address nickname message w
              ])
            ])
    go (some id) e p f =
        Ends-EndsUnless (HasRequest address w) (λ _ w'. Consistent w') _
          (Ends-then Consistent Consistent (update id nickname message)
            (return {A = Received} (some id, none)) w
            (Ends-map (Same w) Consistent (update id nickname message w)
              (λ w' s. Consistent-Same w w' s c) (update-Same id nickname message w c.free))
            (λ w' k. k))
    go none e p f =
        EndsUnless-taking (scan_blocks w.contact_at (is_at address) w.contacts) w
          (HasRequest address w) (λ _ w'. Consistent w') _
          (scan_free w.contact_at (is_at address) w.contacts c.free.contacts) (found p e f)
      where
        found :
            (o : Option ℕ)
            → lookup address w.requests ≡ none
            → find_contact w.contact_at address w.contacts ≡ o
            → EndsUnless
                (HasRequest address w)
                (λ _ w'. Consistent w')
                (elim o [
                  | some id ↦ from_contact clock id w
                  | none ↦ new_request clock address nickname message w
                ])
        found (some id) k g = from_contact-Consistent clock address id w g c
        found none k g =
            unfold new_request in
            new_request-Consistent clock address nickname message w c k (no_contact w address c g)

pub Added-Same :
    (d : ContactData) (w : World) (e : AddError) (w' : World) → Added d w (refused e) w' → Same w w'
Added-Same d w e w' (inl (_, _, p)) = subst (Same w) (sym p) (Same-refl w)
Added-Same d w e w' (inr (inl (_, _, p))) = subst (Same w) (sym p) (Same-refl w)
Added-Same d w e w' (inr (inr (_, _, p))) = subst (Same w) (sym p) (record {
  contacts = refl;
  requests = refl;
  next = refl;
  contact_address = λ i. refl;
  request_address = λ i. refl;
  request_rejected = λ i. refl;
  list_locked = refl;
  contact_locked = λ i. refl;
  request_locked = refl;
})

-- The address has an inbound request.
abbrev pub IsAsking : Bytes → World → Type 0
IsAsking a w = is_some (lookup a w.requests) ≡ true

match_inbound-Consistent :
    (clock : Clock) (d : ContactData) (q : ContactRequest) (w : World) (r : AddResult) (w' : World)
    → d.request ≡ some q
    → Consistent w
    → Added d w r w'
    → EndsUnless (IsAsking d.address w) (λ _ v. Consistent v) (match_inbound clock d.address r w')
unfolding match_inbound
match_inbound-Consistent clock d q w (refused e) w' has c h =
    Consistent-Same w w' (Added-Same d w e w' h) c
match_inbound-Consistent clock d q w (added id) w' has c h =
    elim (Option-cases (lookup d.address w'.requests)) [
      | inl e ↦
          rw (e, EndsUnless) (Nearly-Consistent d.address w' (HasAdded-Nearly d w id w' h c) e)
      | inr (request, e) ↦
          let (s, stuck) = blocked_in _ (on_contact_blocks clock id w' q (h.request ∙ has)) in
          rw (e, stuck, EndsUnless) (ap is_some (ap (lookup d.address) (sym h.requests) ∙ e))
    ]

pub add_contact_request-Consistent :
    (clock : Clock) (address name from_name text : Bytes) (w : World)
    → Consistent w
    → EndsUnless
        (IsAsking address w)
        (λ _ w'. Consistent w')
        (add_contact_request clock address name from_name text w)
unfolding add_contact_request
add_contact_request-Consistent clock address name from_name text w c =
    go (refusal address name from_name text)
  where
    d : ContactData
    d = outbound_data clock.stamp address name from_name text

    go :
        (e : Option AddError)
        → EndsUnless
            (IsAsking address w)
            (λ _ w'. Consistent w')
            (elim e [
              | some e ↦ done (refused e) w
              | none ↦ (add_new_contact d >>= match_inbound clock address) w
            ])
    go (some e) = c
    go none =
        EndsUnless-bind (IsAsking address w) (Added d w) (λ _ v. Consistent v) (add_new_contact d)
          (match_inbound clock address) w
          (Ends-EndsUnless (IsAsking address w) (Added d w) (add_new_contact d w)
            (add_new_contact-Added d w c.free))
          (λ r w' a. match_inbound-Consistent clock d _ w r w' refl c a)
