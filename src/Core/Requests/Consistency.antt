-- ===== src/Core/Requests/Consistency.antt =====
-- core/contactlist.go: what holds of the maps of contacts and requests between two calls.
use ricochet_go.Common.{
  ℕ, ◌<◌, ◌≡◌, ◌⊎◌, inl, inr, refl, sym, Bool, ap, subst, ◌∙◌, true, false, none, some, [], ◌∷◌,
  Bytes, bytes_eq, bytes_eq_iff, Dict, lookup, arith, Option-cases, none_not_some,
}
use ricochet_go.Core.Contact.{Contact}
use ricochet_go.Core.ContactList.{World, scan_blocks, taking}
use ricochet_go.Common.Exec.{Exec, Ends, EndsUnless}
use ricochet_go.Rpc.{ContactData}
use ricochet_go.Core.Requests.{find_contact}

-- No mutex is held.
pub record IsFree (w : World) : Type 0 where
  pub list : w.list_locked ≡ false
  pub contacts : (id : ℕ) → (w.contact_at id).locked ≡ false
  pub requests : (id : ℕ) → w.request_locked id ≡ false

-- Each contact and each request is listed under its own address, no listed request has been rejected,
-- no address has both a contact and a request, and no mutex is held.
pub record Consistent (w : World) : Type 0 where
  pub contacts_own :
      (a : Bytes) (id : ℕ)
      → lookup a w.contacts ≡ some id
      → ((w.contact_at id).contact_data.address ≡ a) × (id < w.next)
  pub requests_own :
      (a : Bytes) (id : ℕ)
      → lookup a w.requests ≡ some id
      → ((w.request_at id).request_data.address ≡ a) × (id < w.next)
  pub pending :
      (a : Bytes) (id : ℕ)
      → lookup a w.requests ≡ some id
      → (w.request_at id).request_data.rejected ≡ false
  pub apart : (a : Bytes) → (lookup a w.contacts ≡ none) ⊎ (lookup a w.requests ≡ none)
  pub free : IsFree w

-- The same, but for the address `a`, whose request is being answered.
pub record Nearly (a : Bytes) (w : World) : Type 0 where
  pub contacts_own :
      (b : Bytes) (id : ℕ)
      → lookup b w.contacts ≡ some id
      → ((w.contact_at id).contact_data.address ≡ b) × (id < w.next)
  pub requests_own :
      (b : Bytes) (id : ℕ)
      → lookup b w.requests ≡ some id
      → ((w.request_at id).request_data.address ≡ b) × (id < w.next)
  pub pending :
      (b : Bytes) (id : ℕ)
      → lookup b w.requests ≡ some id
      → (a ≡ b) ⊎ ((w.request_at id).request_data.rejected ≡ false)
  pub apart : (b : Bytes) → (a ≡ b) ⊎ ((lookup b w.contacts ≡ none) ⊎ (lookup b w.requests ≡ none))
  pub free : IsFree w

pub Consistent-Nearly : (a : Bytes) (w : World) → Consistent w → Nearly a w
Consistent-Nearly a w c = record {
  contacts_own = c.contacts_own;
  requests_own = c.requests_own;
  pending = λ b id h. inr (c.pending b id h);
  apart = λ b. inr (c.apart b);
  free = c.free;
}

-- Where the request of the address is gone, all is well.
pub Nearly-Consistent :
    (a : Bytes) (w : World) → Nearly a w → lookup a w.requests ≡ none → Consistent w
Nearly-Consistent a w n gone = record {
  contacts_own = n.contacts_own;
  requests_own = n.requests_own;
  pending = λ b id h. elim (n.pending b id h) [
    | inl e ↦ absurd (none_not_some (sym gone ∙ ap (λ k. lookup k w.requests) e ∙ h))
    | inr p ↦ p
  ];
  apart = λ b. elim (n.apart b) [
    | inl e ↦ inr (ap (λ k. lookup k w.requests) (sym e) ∙ gone)
    | inr p ↦ p
  ];
  free = n.free;
}

-- Two worlds with the same lists and the same mutexes held, whose contacts and requests have the same
-- addresses; the same requests are rejected.
pub record Same (w w' : World) : Type 0 where
  pub contacts : w'.contacts ≡ w.contacts
  pub requests : w'.requests ≡ w.requests
  pub next : w'.next ≡ w.next
  pub contact_address :
      (id : ℕ) → (w'.contact_at id).contact_data.address ≡ (w.contact_at id).contact_data.address
  pub request_address :
      (id : ℕ) → (w'.request_at id).request_data.address ≡ (w.request_at id).request_data.address
  pub request_rejected :
      (id : ℕ) → (w'.request_at id).request_data.rejected ≡ (w.request_at id).request_data.rejected
  pub list_locked : w'.list_locked ≡ w.list_locked
  pub contact_locked : (id : ℕ) → (w'.contact_at id).locked ≡ (w.contact_at id).locked
  pub request_locked : w'.request_locked ≡ w.request_locked

IsFree-Same : (w w' : World) → Same w w' → IsFree w → IsFree w'
IsFree-Same w w' s h = record {
  list = s.list_locked ∙ h.list;
  contacts = λ id. s.contact_locked id ∙ h.contacts id;
  requests = λ id. ap (λ f. f id) s.request_locked ∙ h.requests id;
}

pub Nearly-Same : (a : Bytes) (w w' : World) → Same w w' → Nearly a w → Nearly a w'
Nearly-Same a w w' s n = record {
  contacts_own = λ b id h.
      let (e, l) = n.contacts_own b id (rw s.contacts at h) in
      (s.contact_address id ∙ e, subst (λ k. id < k) (sym s.next) l);
  requests_own = λ b id h.
      let (e, l) = n.requests_own b id (rw s.requests at h) in
      (s.request_address id ∙ e, subst (λ k. id < k) (sym s.next) l);
  pending = λ b id h. elim (n.pending b id (rw s.requests at h)) [
    | inl e ↦ inl e
    | inr p ↦ inr (s.request_rejected id ∙ p)
  ];
  apart = λ b. elim (n.apart b) [
    | inl e ↦ inl e
    | inr (inl p) ↦ inr (inl (ap (lookup b) s.contacts ∙ p))
    | inr (inr p) ↦ inr (inr (ap (lookup b) s.requests ∙ p))
  ];
  free = IsFree-Same w w' s n.free;
}

pub Consistent-Same : (w w' : World) → Same w w' → Consistent w → Consistent w'
Consistent-Same w w' s c = record {
  contacts_own = λ b id h.
      let (e, l) = c.contacts_own b id (rw s.contacts at h) in
      (s.contact_address id ∙ e, subst (λ k. id < k) (sym s.next) l);
  requests_own = λ b id h.
      let (e, l) = c.requests_own b id (rw s.requests at h) in
      (s.request_address id ∙ e, subst (λ k. id < k) (sym s.next) l);
  pending = λ b id h. s.request_rejected id ∙ c.pending b id (rw s.requests at h);
  apart = λ b. elim (c.apart b) [
    | inl p ↦ inl (ap (lookup b) s.contacts ∙ p)
    | inr p ↦ inr (ap (lookup b) s.requests ∙ p)
  ];
  free = IsFree-Same w w' s c.free;
}

-- The search of `AddOrUpdateInboundContactRequest` finds every listed contact of the address.
find_contact_misses :
    (heap : ℕ → Contact) (a : Bytes) (d : Dict ℕ) (id : ℕ)
    → find_contact heap a d ≡ none
    → lookup a d ≡ some id
    → bytes_eq (heap id).contact_data.address a ≡ false
unfolding find_contact lookup
find_contact_misses heap a [] id h l = cc
find_contact_misses heap a ((b, i) ∷ rest) id h l =
    ground (arith, find_contact_misses heap a rest id)

pub no_contact :
    (w : World) (a : Bytes)
    → Consistent w
    → find_contact w.contact_at a w.contacts ≡ none
    → lookup a w.contacts ≡ none
no_contact w a c h = elim (Option-cases (lookup a w.contacts)) [
  | inl e ↦ e
  | inr (id, e) ↦
      let differs = find_contact_misses w.contact_at a w.contacts id h e in
      let (own, _) = c.contacts_own a id e in
      absurd (ground (arith, bytes_eq_iff (w.contact_at id).contact_data.address a))
]

-- A loop over contacts whose mutexes are free does not block.
pub scan_free :
    (heap : ℕ → Contact) (test : ContactData → Bool) (d : Dict ℕ)
    → ((id : ℕ) → (heap id).locked ≡ false)
    → scan_blocks heap test d ≡ false
unfolding scan_blocks
scan_free heap test [] free = refl
scan_free heap test ((a, id) ∷ rest) free = ground (arith, free id, scan_free heap test rest free)

-- Taking a mutex that is free.
pub EndsUnless-taking :
    {A : Type 0} (held : Bool) (w : World) (D : Type 0) (P : A → World → Type 0) (m : Exec World A)
    → held ≡ false
    → EndsUnless D P m
    → EndsUnless D P (taking held w m)
EndsUnless-taking true w D P m e h = cc
EndsUnless-taking false w D P m e h = h

pub Ends-taking :
    {A : Type 0} (held : Bool) (w : World) (P : A → World → Type 0) (m : Exec World A)
    → held ≡ false
    → Ends P m
    → Ends P (taking held w m)
Ends-taking true w P m e h = cc
Ends-taking false w P m e h = h
