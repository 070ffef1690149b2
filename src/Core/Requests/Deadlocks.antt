-- ===== src/Core/Requests/Deadlocks.antt =====
-- core/contactlist.go, core/inboundcontactrequest.go: calls that never return.
use ricochet_go.Common.{
  ℕ, ◌≡◌, inl, inr, ap, ◌∙◌, Bool, true, false, none, some, is_some, Bytes, lookup,
}
use ricochet_go.Common.Exec.{
  IsBlocked, Exec, done, deadlock, fault, EndsUnless, ◌>>=◌, ◌>>◌, return,
}
use ricochet_go.Rpc.{ContactData}
use ricochet_go.Core.Address.{is_address_valid}
use ricochet_go.Core.Contact.{Clock, update_contact_request, accepted}
use ricochet_go.Core.ContactList.{
  World, AddError, AddResult, added, refused, has_nickname, add_new_contact, taking, scan_blocks,
  on_contact,
}
use ricochet_go.Core.InboundRequest.{accept_with_contact}
use ricochet_go.Core.Requests.{
  refusal, outbound_data, match_inbound, add_contact_request, from_contact, is_at,
  add_or_update_inbound_contact_request,
}
use ricochet_go.Core.Requests.Adding.{HasAdded, Added, Obstructed, add_new_contact_outcome}
use ricochet_go.Core.Requests.Calls.{on_contact_blocks, HasRequest}

-- Nothing stands in the way of a new contact with this data.
pub record IsWelcome (d : ContactData) (w : World) : Type 0 where
  pub valid : is_address_valid d.address ≡ true
  pub not_listed : lookup d.address w.contacts ≡ none
  pub no_namesake : has_nickname w.contact_at d.nickname w.contacts ≡ false

pub not_refused :
    (d : ContactData) (w : World) (e : AddError) (w' : World)
    → IsWelcome d w
    → Added d w (refused e) w'
    → ⊥
not_refused d w e w' k (inl (_, h, _)) =
    let a = k.not_listed in let b : is_some (lookup d.address w.contacts) ≡ false = rw a in cc
not_refused d w e w' k (inr (inl (_, h, _))) = let b = k.no_namesake in cc
not_refused d w e w' k (inr (inr (_, h, _))) = let b = k.valid in cc

-- What follows `AddNewContact` blocks if it blocks for each contact that may be added.
after_adding_blocks :
    {A : Type 0} (d : ContactData) (w : World) (f : AddResult → World → Exec World A)
    → IsWelcome d w
    → ((id : ℕ) (w' : World) → HasAdded d w id w' → IsBlocked (f (added id) w'))
    → IsBlocked ((add_new_contact d >>= f) w)
after_adding_blocks {A} d w f k h = go (add_new_contact d w) (add_new_contact_outcome d w)
  where
    go :
        (r : Exec World AddResult)
        → EndsUnless (Obstructed d w) (λ a w'. Added d w a w') r
        → IsBlocked (elim r as (λ _. Exec World A) [
          | done a s ↦ f a s
          | deadlock s ↦ deadlock s
          | fault ↦ fault
        ])
    go (done (added id) w') x = h id w' x
    go (done (refused e) w') x = absurd (not_refused d w e w' k x)
    go (deadlock s) x = tt
    go fault x = absurd x

pub then_blocks :
    {A B : Type 0} (m : World → Exec World A) (k : World → Exec World B) (w : World)
    → IsBlocked (m w)
    → IsBlocked ((m >> k) w)
then_blocks {A} {B} m k w h = go (m w) h
  where
    go :
        (r : Exec World A)
        → IsBlocked r
        → IsBlocked (elim r as (λ _. Exec World B) [
          | done a s ↦ k s
          | deadlock s ↦ deadlock s
          | fault ↦ fault
        ])
    go (done a s) x = absurd x
    go (deadlock s) x = tt
    go fault x = absurd x

taking_blocks :
    {A : Type 0} (held : Bool) (w : World) (m : Exec World A)
    → IsBlocked m
    → IsBlocked (taking held w m)
taking_blocks true w m e = tt
taking_blocks false w m e = e

-- A user's request, with acceptable texts and nothing in the way of the contact, to a peer who has
-- already asked never returns, though it means to accept the peer's request: the new contact has an
-- outbound request, and `UpdateContactRequest` blocks on it.
pub add_contact_request_blocks :
    (clock : Clock) (address name from_name text : Bytes) (request : ℕ) (w : World)
    → refusal address name from_name text ≡ none
    → IsWelcome (outbound_data clock.stamp address name from_name text) w
    → lookup address w.requests ≡ some request
    → IsBlocked (add_contact_request clock address name from_name text w)
unfolding add_contact_request match_inbound
add_contact_request_blocks clock address name from_name text request w fine k l =
    rw (fine, add_contact_request)
      (after_adding_blocks (outbound_data clock.stamp address name from_name text) w
        (match_inbound clock address) k
        (λ id w' h.
          rw (ap (lookup address) h.requests ∙ l, match_inbound)
            (then_blocks
              (on_contact (update_contact_request clock accepted) id
                >> accept_with_contact request id)
              (return (added id)) w'
              (then_blocks (on_contact (update_contact_request clock accepted) id)
                (accept_with_contact request id) w' (on_contact_blocks clock id w' _ h.request)))))

-- A first request from a peer who is a contact with a request of ours is never answered: the call
-- blocks.
pub add_or_update_blocks :
    (clock : Clock) (address nickname message : Bytes) (w : World)
    → lookup address w.requests ≡ none
    → HasRequest address w
    → IsBlocked (add_or_update_inbound_contact_request clock address nickname message w)
unfolding add_or_update_inbound_contact_request from_contact
add_or_update_blocks clock address nickname message w l (id, r, f, q) =
    rw (l, add_or_update_inbound_contact_request, f, q)
      (taking_blocks w.list_locked w _ (
        taking_blocks (scan_blocks w.contact_at (is_at address) w.contacts) w _ (
          then_blocks (on_contact (update_contact_request clock accepted) id)
            (return (none, some id)) w (on_contact_blocks clock id w r q))))
