-- ===== src/Core/Contact/Locking.antt =====
-- core/contact.go: the contact's mutex, which a goroutine cannot take twice.
use ricochet_go.Common.{
  Bool-cases, none_not_some, ◌∙◌, ◌≡◌, ◌⊎◌, inl, inr, refl, sym, subst, Bool, false, Option, none,
  some,
}
use ricochet_go.Common.Exec.{done, IsBlocked}
use ricochet_go.Rpc.{ContactRequest}
use ricochet_go.Core.Contact.{
  State, Clock, RequestStatus, pending, accepted, rejected, error, other, update_contact_request,
}

abbrev pub with_lock : Bool → State → State
with_lock b s = record s { contact = record (s.contact) { locked = b } }

abbrev pub with_request : Option ContactRequest → State → State
with_request r s = record s {
  contact = record (s.contact) { contact_data = record (s.contact.contact_data) { request = r } };
}

pub blocks_with_request :
    (clock : Clock) (status : RequestStatus) (r : ContactRequest) (s : State)
    → IsBlocked (update_contact_request clock status (with_lock false (with_request (some r) s)))
unfolding update_contact_request
blocks_with_request clock pending r s = tt
blocks_with_request clock accepted r s = tt
blocks_with_request clock rejected r s = tt
blocks_with_request clock error r s = tt
blocks_with_request clock other r s = tt

abbrev Blocks : Clock → RequestStatus → State → Type 0
Blocks clock status s =
    ((s.contact.contact_data.request ≡ none)
      × (update_contact_request clock status s ≡ done false s))
    ⊎ ((r : ContactRequest) × (s.contact.contact_data.request ≡ some r)
        × IsBlocked (update_contact_request clock status s))

unlocked_or_stuck :
    (clock : Clock) (status : RequestStatus) (q : Option ContactRequest) (s : State)
    → Blocks clock status (with_lock false (with_request q s))
unfolding update_contact_request
unlocked_or_stuck clock status none s = inl (refl, refl)
unlocked_or_stuck clock status (some r) s = inr (r, refl, blocks_with_request clock status r s)

-- `UpdateContactRequest` on a contact whose mutex is free: if the contact has a request, it never
-- returns, whatever the status is, since it reads the contact's data, which takes the mutex, before it
-- lets the mutex go; if the contact has none, it returns false and changes nothing.
pub update_contact_request_blocks :
    (clock : Clock) (status : RequestStatus) (s : State)
    → s.contact.locked ≡ false
    → ((s.contact.contact_data.request ≡ none)
        × (update_contact_request clock status s ≡ done false s))
      ⊎ ((r : ContactRequest) × (s.contact.contact_data.request ≡ some r)
          × IsBlocked (update_contact_request clock status s))
update_contact_request_blocks clock status s h =
    subst (λ b. Blocks clock status (with_lock b s)) (sym h)
      (unlocked_or_stuck clock status s.contact.contact_data.request s)

-- A request alone is enough: where the mutex is not free, the method blocks at once.
pub request_blocks :
    (clock : Clock) (status : RequestStatus) (s : State) (r : ContactRequest)
    → s.contact.contact_data.request ≡ some r
    → IsBlocked (update_contact_request clock status s)
unfolding update_contact_request
request_blocks clock status s r q = elim (Bool-cases s.contact.locked) [
  | inl h ↦ subst (λ b. IsBlocked (update_contact_request clock status (with_lock b s))) (sym h) tt
  | inr h ↦ elim (update_contact_request_blocks clock status s h) [
    | inl (e, _) ↦ absurd (none_not_some (sym e ∙ q))
    | inr (_, _, e) ↦ e
  ]
]
