-- ===== src/Cli/Client/Calls.antt =====
-- The frontend (ricochet-cli/client.go) behind any call on the lists of the backend
-- (core/contactlist.go, core/inboundcontactrequest.go).
use ricochet_go.Common.{
  ℕ, true, Bytes, lookup, is_some, Option, some, none, ◌≡◌, inl, inr, refl, sym, subst, Bool-cases,
  Option-cases, [], ◌∷◌, append-nil,
}
use ricochet_go.Common.Exec.{IsBlocked, blocked_in, IfEnds, ◌>>◌, return}
use ricochet_go.Rpc.{ContactEventType}
use ricochet_go.Core.Contact.{Clock, State, lock, accepted, update_contact_request}
use ricochet_go.Core.Contact.Locking.{with_lock, update_contact_request_blocks}
use ricochet_go.Core.ContactList.{
  World, M, AddResult, added, refused, add_new_contact, remove_contact, on_contact, request_event,
  scan_blocks,
}
use ricochet_go.Core.InboundRequest.{
  accept_with_contact, accept, reject, update, set_nickname, get_contact_result_channel,
}
use ricochet_go.Core.Requests.{
  match_inbound, add_contact_request, refusal, outbound_data, from_contact, new_request,
  find_contact, is_at, Received, add_or_update_inbound_contact_request,
}
use ricochet_go.Core.Requests.Calls.{on_contact_blocks}
use ricochet_go.Core.Requests.Invariant.{
  Call, asks, removes, accepts, rejects, receives, names, waits, leaves, closes, perform,
  with_listed,
}
use ricochet_go.Cli.Client.{Client}
use ricochet_go.Cli.Client.Mirror.{Mirrors}
use ricochet_go.Cli.Client.Following.{
  push_all, either-Mirrors, taking-Mirrors, add_new_contact-Mirrors, remove_contact-Mirrors,
}
use ricochet_go.Cli.Client.Steps.{
  IsFollowed, bind-IsFollowed, then-IsFollowed, return-IsFollowed, accept_with-Following,
  accept-Following, reject-Following, set_nickname-Following, waits-Following, close-Following,
  clear-Following, update-Following,
}

-- A contact whose mutex is held.
stuck_if_held :
    (clock : Clock) (s : State)
    → s.contact.locked ≡ true
    → IsBlocked (update_contact_request clock accepted s)
unfolding update_contact_request lock
stuck_if_held clock s h =
    subst (λ b. IsBlocked (update_contact_request clock accepted (with_lock b s))) (sym h) tt

module _ (c : Client) where
  -- What `UpdateContactRequest` does to a contact, where it returns.
  contact-Following :
      (clock : Clock) (id : ℕ)
      → IsFollowed c (on_contact (update_contact_request clock accepted) id)
  unfolding on_contact
  contact-Following clock id w m = elim (Option-cases (w.contact_at id).contact_data.request) [
    | inr (r, e) ↦ let (s, stuck) = blocked_in _ (on_contact_blocks clock id w r e) in rw stuck tt
    | inl e ↦ elim (Bool-cases (w.contact_at id).locked) [
      | inl held ↦ let (s, stuck) = blocked_in _ (stuck_if_held clock (state w) held) in rw stuck tt
      | inr free ↦ elim (update_contact_request_blocks clock accepted (state w) free) [
        | inl (_, returns) ↦ rw returns (rw append-nil m)
        | inr (r, _, blocks) ↦ let (s, stuck) = blocked_in _ blocks in rw stuck tt
      ]
    ]
  ]
    where
      state : World → State
      state w' = record { contact = w'.contact_at id; config = w'.config; trace = [] }

  match_inbound-Following :
      (clock : Clock) (address : Bytes) (r : AddResult)
      → IsFollowed c (match_inbound clock address r)
  unfolding match_inbound
  match_inbound-Following clock address (refused e) w m = m
  match_inbound-Following clock address (added id) w m =
      elim (Option-cases (lookup address w.requests)) [
        | inl e ↦ rw (e, match_inbound, IfEnds) m
        | inr (request, e) ↦
            rw (e, match_inbound, IfEnds)
              (then-IsFollowed c
                (on_contact (update_contact_request clock accepted) id
                  >> accept_with_contact request id)
                (return (added id))
                (then-IsFollowed c (on_contact (update_contact_request clock accepted) id)
                  (accept_with_contact request id) (contact-Following clock id)
                  (accept_with-Following c request id))
                (return-IsFollowed c (added id)) w m)
      ]

  pub add_contact_request-Following :
      (clock : Clock) (address name from_name text : Bytes)
      → IsFollowed c (add_contact_request clock address name from_name text)
  unfolding add_contact_request
  add_contact_request-Following clock address name from_name text w m =
      elim (Option-cases (refusal address name from_name text)) [
        | inr (e, bad) ↦ rw (bad, add_contact_request, IfEnds) m
        | inl good ↦
            let d = outbound_data clock.stamp address name from_name text in
            rw (good, add_contact_request)
              (bind-IsFollowed c (add_new_contact d) (match_inbound clock address)
                (add_new_contact-Mirrors c d) (match_inbound-Following clock address) w m)
      ]

  from_contact-Following : (clock : Clock) (id : ℕ) → IsFollowed c (from_contact clock id)
  unfolding from_contact
  from_contact-Following clock id w m =
      either-Mirrors (is_some (w.contact_at id).contact_data.request) c _ _
        (then-IsFollowed c {B = Option ℕ × Option ℕ}
          (on_contact (update_contact_request clock accepted) id) (return (none, some id))
          (contact-Following clock id)
          (return-IsFollowed c {A = Option ℕ × Option ℕ} (none, some id)) w m)
        m

  new_request-Following :
      (clock : Clock) (address nickname message : Bytes)
      → IsFollowed c (new_request clock address nickname message)
  unfolding new_request
  new_request-Following clock address nickname message w m =
      push_all c w.contacts w.trace (request_event ContactEventType.add _ ∷ []) (refl, tt) m

  add_or_update-Following :
      (clock : Clock) (address nickname message : Bytes)
      → IsFollowed c (add_or_update_inbound_contact_request clock address nickname message)
  unfolding add_or_update_inbound_contact_request
  add_or_update-Following clock address nickname message w m =
      taking-Mirrors w.list_locked w c _ (elim (Option-cases (lookup address w.requests)) [
        | inr (id, e) ↦
            rw (e, add_or_update_inbound_contact_request)
              (then-IsFollowed c {B = Received} (update id nickname message)
                (return (some id, none)) (update-Following c id nickname message)
                (return-IsFollowed c {A = Received} (some id, none)) w m)
        | inl e ↦ elim (Option-cases (find_contact w.contact_at address w.contacts)) [
          | inr (id, f) ↦
              rw (e, add_or_update_inbound_contact_request, f)
                (taking-Mirrors (scan_blocks w.contact_at (is_at address) w.contacts) w c _
                  (from_contact-Following clock id w m))
          | inl f ↦
              rw (e, add_or_update_inbound_contact_request, f)
                (taking-Mirrors (scan_blocks w.contact_at (is_at address) w.contacts) w c _
                  (new_request-Following clock address nickname message w m))
        ]
      ])

  listed-Following :
      (a : Bytes) (f : ℕ → M (Unit {0}))
      → ((id : ℕ) → IsFollowed c (f id))
      → IsFollowed c (with_listed a f)
  unfolding with_listed
  listed-Following a f h w m = elim (Option-cases (lookup a w.requests)) [
    | inl e ↦ rw (e, with_listed, IfEnds) m
    | inr (id, e) ↦ rw (e, with_listed) (h id w m)
  ]

  forget : {A : Type 0} (p : M A) → IsFollowed c p → IsFollowed c {A = Unit {0}} (p >> return tt)
  forget p h = then-IsFollowed c p (return tt) h (return-IsFollowed c tt)

  -- Once the contacts are populated, the frontend that handles the events which the backend publishes lists exactly the
  -- addresses of the backend's contacts, after every call of the user, a peer or a connection that returns.
  pub perform-Mirrors :
      (o : Call) (w : World) → Mirrors c w → IfEnds (λ _ w'. Mirrors c w') (perform o w)
  unfolding perform
  perform-Mirrors (asks clock address name from_name text) w m =
      forget (add_contact_request clock address name from_name text)
        (add_contact_request-Following clock address name from_name text) w m
  perform-Mirrors (removes id) w m = forget (remove_contact id) (remove_contact-Mirrors c id) w m
  perform-Mirrors (accepts a) w m =
      listed-Following a (λ id. accept id >> return tt)
        (λ id. forget (accept id) (accept-Following c id)) w m
  perform-Mirrors (rejects a) w m = listed-Following a reject (reject-Following c) w m
  perform-Mirrors (receives clock address nickname message) w m =
      forget (add_or_update_inbound_contact_request clock address nickname message)
        (add_or_update-Following clock address nickname message) w m
  perform-Mirrors (names id nickname) w m =
      forget (set_nickname id nickname) (set_nickname-Following c id nickname) w m
  perform-Mirrors (waits id) w m = forget (get_contact_result_channel id) (waits-Following c id) w m
  perform-Mirrors (leaves id channel) w m = clear-Following c id channel w m
  perform-Mirrors (closes id) w m = close-Following c id w m
