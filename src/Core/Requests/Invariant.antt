-- ===== src/Core/Requests/Invariant.antt =====
-- core/contactlist.go, core/inboundcontactrequest.go: the lists through any sequence of calls.
use ricochet_go.Common.{ℕ, ◌≡◌, refl, Option, none, some, Bytes, lookup}
use ricochet_go.Common.Exec.{
  Exec, done, Ends, Ends-map, EndsUnless, EndsUnless-bind, EndsUnless-map, Ends-EndsUnless, ◌>>◌,
  return,
}
use ricochet_go.Core.Contact.{Clock}
use ricochet_go.Core.ContactList.{World, M, AddError, AddResult, added, refused, remove_contact}
use ricochet_go.Core.InboundRequest.{
  accept, reject, set_nickname, get_contact_result_channel, close_connection,
  clear_contact_result_channel,
}
use ricochet_go.Core.Requests.{add_contact_request, add_or_update_inbound_contact_request}
use ricochet_go.Core.Requests.Consistency.{Same, Consistent, Consistent-Same}
use ricochet_go.Core.Requests.Steps.{
  IsUnheard, get_contact_result_channel-Same, close_connection-Same,
  clear_contact_result_channel-Same, set_nickname-Same,
}
use ricochet_go.Core.Requests.Calls.{
  HasRequest, IsAsking, remove_contact-Consistent, add_or_update-Consistent,
  add_contact_request-Consistent,
}
use ricochet_go.Core.Requests.Answers.{Accepted, Closed, accept_outcome, reject_outcome}

-- The calls: of the user, by address as the RPC server makes them, and of connections.
pub data Call : Type 0 where
  asks : Clock → Bytes → Bytes → Bytes → Bytes → Call
  removes : ℕ → Call
  accepts : Bytes → Call
  rejects : Bytes → Call
  receives : Clock → Bytes → Bytes → Bytes → Call
  names : ℕ → Bytes → Call
  waits : ℕ → Call
  leaves : ℕ → ℕ → Call
  closes : ℕ → Call

-- A call about the request of an address; without one nothing is done.
unfoldable pub with_listed : Bytes → (ℕ → M (Unit {0})) → M (Unit {0})
with_listed a f w = elim (lookup a w.requests) [ none ↦ done tt w | some id ↦ f id w ]

unfoldable pub perform : Call → M (Unit {0})
unfolding with_listed
perform (asks clock address name from_name text) w =
    (add_contact_request clock address name from_name text >> return tt) w
perform (removes id) w = (remove_contact id >> return tt) w
perform (accepts a) w = with_listed a (λ id. accept id >> return tt) w
perform (rejects a) w = with_listed a reject w
perform (receives clock address nickname message) w =
    (add_or_update_inbound_contact_request clock address nickname message >> return tt) w
perform (names id nickname) w = (set_nickname id nickname >> return tt) w
perform (waits id) w = (get_contact_result_channel id >> return tt) w
perform (leaves id channel) w = clear_contact_result_channel id channel w
perform (closes id) w = close_connection id w

-- The request of the address waits on a connection that no longer listens.
abbrev pub IsLeft : Bytes → World → Type 0
IsLeft a w = (id : ℕ) × (lookup a w.requests ≡ some id) × IsUnheard id w

-- When a call may block.
abbrev pub Blocks : Call → World → Type 0
Blocks (asks clock address name from_name text) w = IsAsking address w
Blocks (receives clock address nickname message) w = HasRequest address w
Blocks (accepts a) w = IsLeft a w
Blocks (rejects a) w = IsLeft a w
Blocks _ w = ⊥

Accepted-Consistent :
    (a : Bytes) (id : ℕ) (w : World) (p : AddResult × Option AddError) (w' : World)
    → Accepted a id w p w'
    → Consistent w'
Accepted-Consistent a id w (added contact, e) w' h = h.1
Accepted-Consistent a id w (refused r, e) w' h = h.1

-- The result of a call is forgotten.
then_done :
    {A : Type 0} (D : Type 0) (m : M A) (w : World)
    → EndsUnless D (λ _ w'. Consistent w') (m w)
    → EndsUnless D (λ _ w'. Consistent w') ((m >> return tt) w)
then_done D m w h =
    EndsUnless-bind D (λ _ w'. Consistent w') (λ _ w'. Consistent w') m (λ _. return tt) w h
      (λ x s p. p)

listed-Consistent :
    (a : Bytes) (f : ℕ → M (Unit {0})) (w : World)
    → Consistent w
    → ((id : ℕ)
        → lookup a w.requests ≡ some id
        → EndsUnless (IsUnheard id w) (λ _ w'. Consistent w') (f id w))
    → EndsUnless (IsLeft a w) (λ _ w'. Consistent w') (with_listed a f w)
unfolding with_listed
listed-Consistent a f w c h = go (lookup a w.requests) refl
  where
    go :
        (q : Option ℕ)
        → lookup a w.requests ≡ q
        → EndsUnless
            (IsLeft a w)
            (λ _ w'. Consistent w')
            (elim q [ none ↦ done tt w | some id ↦ f id w ])
    go none e = c
    go (some id) e =
        EndsUnless-map (IsUnheard id w) (IsLeft a w) (λ _ w'. Consistent w') (λ _ w'. Consistent w')
          (f id w) (λ u. (id, e, u)) (λ x s p. p) (h id e)

Same-Consistent :
    {A : Type 0} (w : World)
    → Consistent w
    → (r : Exec World A) → Ends (λ _ w'. Same w w') r
    → EndsUnless ⊥ (λ _ w'. Consistent w') r
Same-Consistent w c r h =
    Ends-EndsUnless ⊥ (λ _ w'. Consistent w') r
      (Ends-map (Same w) Consistent r (λ w' s. Consistent-Same w w' s c) h)

-- A call of the user, a peer or a connection that starts from consistent lists with no mutex held, and is not
-- interleaved with another call, leaves the lists consistent and every mutex free if it returns: contacts and requests are
-- listed under their own addresses, no listed request has been rejected, and no address has both. It
-- returns except in these cases: a request to a new contact may block if that address has an
-- inbound request, a request from a contact may block if the contact has a request itself, and accepting
-- or rejecting may block if the connection of the request no longer listens.
pub perform-Consistent :
    (o : Call) (w : World)
    → Consistent w
    → EndsUnless (Blocks o w) (λ _ w'. Consistent w') (perform o w)
unfolding perform
perform-Consistent (asks clock address name from_name text) w c =
    then_done _ (add_contact_request clock address name from_name text) w
      (add_contact_request-Consistent clock address name from_name text w c)
perform-Consistent (removes id) w c = then_done ⊥ (remove_contact id) w (
    Ends-EndsUnless ⊥ (λ _ w'. Consistent w') (remove_contact id w)
      (remove_contact-Consistent id w c))
perform-Consistent (accepts a) w c =
    listed-Consistent a (λ id. accept id >> return tt) w c
      (λ id l. then_done _ (accept id) w (
        EndsUnless-map (IsUnheard id w) (IsUnheard id w) (Accepted a id w) (λ _ w'. Consistent w')
          (accept id w) (λ u. u) (λ p w' h. Accepted-Consistent a id w p w' h)
          (accept_outcome a id w c l)))
perform-Consistent (rejects a) w c = listed-Consistent a reject w c (λ id l.
    EndsUnless-map (IsUnheard id w) (IsUnheard id w) (λ _ w'. Closed a w w') (λ _ w'. Consistent w')
      (reject id w) (λ u. u) (λ x w' h. h.0) (reject_outcome a id w c l))
perform-Consistent (receives clock address nickname message) w c =
    then_done _ (add_or_update_inbound_contact_request clock address nickname message) w
      (add_or_update-Consistent clock address nickname message w c)
perform-Consistent (names id nickname) w c =
    then_done ⊥ (set_nickname id nickname) w
      (Same-Consistent w c (set_nickname id nickname w) (set_nickname-Same id nickname w c.free))
perform-Consistent (waits id) w c = then_done ⊥ (get_contact_result_channel id) w (
    Same-Consistent w c (get_contact_result_channel id w)
      (get_contact_result_channel-Same id w c.free))
perform-Consistent (leaves id channel) w c =
    Same-Consistent w c (clear_contact_result_channel id channel w)
      (clear_contact_result_channel-Same id channel w c.free)
perform-Consistent (closes id) w c =
    Same-Consistent w c (close_connection id w) (close_connection-Same id w c.free)
