-- ===== src/Core/InboundHandler/Ownership.antt =====
-- core/inboundcontactrequest.go: `HandleInboundRequestConnection` keeps what its comment says of the
-- connection, and the lists consistent.
use ricochet_go.Common.{
  ℕ, ◌≡◌, ◌⊎◌, inl, inr, refl, ap, ◌∙◌, Bool, true, false, ◌||◌, Option, none, some, List, [], ◌∷◌,
  Bytes, lookup, erase, if◌then◌else◌, Bool-cases, ==_iff, ◌==◌,
}
use ricochet_go.Common.Exec.{
  Exec, done, deadlock, fault, Ends, EndsUnless, EndsUnless-bind, Ends-EndsUnless, Ends-bind,
  Ends-map, return,
}
use ricochet_go.Core.Address.{address_from_plain_host}
use ricochet_go.Core.Contact.{Clock}
use ricochet_go.Core.ContactList.{World, remove_inbound_contact_request}
use ricochet_go.Core.InboundRequest.{
  is_rejected_request, get_contact_result_channel, clear_contact_result_channel,
}
use ricochet_go.Core.Requests.{Received, add_or_update_inbound_contact_request}
use ricochet_go.Core.Requests.Consistency.{
  Same, Consistent, Consistent-Nearly, Consistent-Same, Ends-taking,
}
use ricochet_go.Core.Requests.Steps.{
  remove_inbound_contact_request-Consistent, get_contact_result_channel-Same,
  clear_contact_result_channel-Same,
}
use ricochet_go.Core.Requests.Calls.{HasRequest, add_or_update-Consistent}
use ricochet_go.Core.InboundHandler.{
  Effect, close, respond, stop_processing, assign, pending, accepted, Arrival, request_received,
  process_ended, timed_out, Answer, answered, channel_closed, process_over, Progress, returned,
  waits, Peer, after_removal, conclude, start_waiting, after_test, dispatch, take_arrival, begin,
  resume, stripped_name, stripped_message,
}

abbrev pub is_closed : List Effect → Bool
is_closed [] = false
is_closed (close ∷ rest) = true
is_closed (_ ∷ rest) = is_closed rest

-- What has become of the connection: it waits for the user, or it was assigned to a contact and there
-- is no error, or there is an error and it is closed or was lost on its own (`lost`).
abbrev pub Owned : Bool → Progress → Type 0
Owned lost (waits request channel effects) = effects ≡ respond pending ∷ []
Owned lost (returned false effects) =
    (contact : ℕ) × (effects ≡ respond accepted ∷ stop_processing ∷ assign contact ∷ [])
Owned lost (returned true effects) = (is_closed effects ≡ true) ⊎ (lost ≡ true)

-- `Process` has ended with an error on its own.
abbrev pub is_over : Arrival → Bool
is_over (request_received name message) = false
is_over (process_ended e) = e
is_over timed_out = false

abbrev pub is_lost : Answer → Bool
is_lost (answered contact) = false
is_lost channel_closed = false
is_lost (process_over e) = e

-- Nobody but this function calls `Break`, so `Process` does not end without an error before.
abbrev pub is_break : Answer → Bool
is_break (answered contact) = false
is_break channel_closed = false
is_break (process_over true) = false
is_break (process_over false) = true

remove-Consistent :
    (id : ℕ) (w : World)
    → Consistent w
    → Ends (λ _ w'. Consistent w') (remove_inbound_contact_request id w)
remove-Consistent id w c = split (lookup (w.request_at id).request_data.address w.requests) refl
  where
    weaken :
        (a : Bytes) (r : Exec World Bool)
        → Ends
            (λ e w'.
              (e ≡ false)
              × Consistent w'
              × (w'.requests ≡ erase a w.requests)
              × (w'.contacts ≡ w.contacts))
            r
        → Ends (λ _ w'. Consistent w') r
    weaken a (done e w') h = h.1
    weaken a (deadlock s) h = h
    weaken a fault h = h

    split :
        (q : Option ℕ)
        → lookup (w.request_at id).request_data.address w.requests ≡ q
        → Ends (λ _ w'. Consistent w') (remove_inbound_contact_request id w)
    split none e =
        unfold remove_inbound_contact_request in
        Ends-taking w.list_locked w _ _ c.free.list (rw (e, Ends) c)
    split (some i) e = elim (Bool-cases (i == id)) [
      | inl same ↦
          let a = (w.request_at id).request_data.address in
          weaken a (remove_inbound_contact_request id w) (
            remove_inbound_contact_request-Consistent a id w (Consistent-Nearly a w c)
              (e ∙ ap some ((==_iff i id).0 same)))
      | inr other ↦
          unfold remove_inbound_contact_request in
          Ends-taking w.list_locked w _ _ c.free.list (rw (e, other, Ends) c)
    ]

conclude-Owned :
    (peer : Peer) (request contact : Option ℕ) (w : World)
    → peer.close_error ≡ true
    → Consistent w
    → Ends (λ p w'. Owned peer.break_fails p × Consistent w') (conclude peer request contact w)
unfolding conclude after_removal
conclude-Owned peer request (some contact) w e c = elim (Bool-cases peer.break_fails) [
  | inl b ↦ rw (b, Ends) (inr refl, c)
  | inr b ↦ rw (b, Ends) ((contact, refl), c)
]
conclude-Owned peer (some request) none w e c =
    Ends-bind (λ _ w'. Consistent w') (λ p w'. Owned peer.break_fails p × Consistent w')
      (remove_inbound_contact_request request) (λ x. return (after_removal peer x)) w
      (remove-Consistent request w c) (λ x w' c'. rw (e, Ends) (inl refl, c'))
conclude-Owned peer none none w e c = rw (e, Ends) (inl refl, c)

start_waiting-Owned :
    (lost : Bool) (request : ℕ) (w : World)
    → Consistent w
    → Ends (λ p w'. Owned lost p × Consistent w') (start_waiting request w)
unfolding start_waiting
start_waiting-Owned lost request w c =
    Ends-bind (λ _ w'. Consistent w') (λ p w'. Owned lost p × Consistent w')
      (get_contact_result_channel request)
      (λ channel. return (waits request channel (respond pending ∷ []))) w
      (Ends-map (Same w) Consistent (get_contact_result_channel request w)
        (λ w' s. Consistent-Same w w' s c) (get_contact_result_channel-Same request w c.free))
      (λ x w' c'. (refl, c'))

Ends-either :
    {S A : Type 0} (P : A → S → Type 0) (b : Bool) (x y : Exec S A)
    → Ends P x
    → Ends P y
    → Ends P (if b then x else y)
Ends-either P true x y p q = p
Ends-either P false x y p q = q

dispatch-Owned :
    (peer : Peer) (r : Received) (w : World)
    → peer.close_error ≡ true
    → Consistent w
    → Ends (λ p w'. Owned peer.break_fails p × Consistent w') (dispatch peer r w)
unfolding dispatch
dispatch-Owned peer (request, some contact) w e c = conclude-Owned peer request (some contact) w e c
dispatch-Owned peer (none, none) w e c = conclude-Owned peer none none w e c
dispatch-Owned peer (some request, none) w e c =
    Ends-bind (λ _ w'. Consistent w') (λ p w'. Owned peer.break_fails p × Consistent w')
      (is_rejected_request request) (after_test peer request) w
      (unfold is_rejected_request in
        Ends-taking (w.request_locked request) w _ _ (c.free.requests request) c)
      (λ b w' c'.
        unfold after_test in
        Ends-either (λ p v. Owned peer.break_fails p × Consistent v) b
          (conclude peer (some request) none w') (start_waiting request w')
          (conclude-Owned peer (some request) none w' e c')
          (start_waiting-Owned peer.break_fails request w' c'))

take_arrival-Owned :
    (clock : Clock) (peer : Peer) (address : Bytes) (arrival : Arrival) (w : World)
    → peer.close_error ≡ true
    → Consistent w
    → EndsUnless
        (HasRequest address w)
        (λ p w'. Owned (is_over arrival || peer.break_fails) p × Consistent w')
        (take_arrival clock peer address arrival w)
unfolding take_arrival
take_arrival-Owned clock peer address (request_received name message) w e c =
    EndsUnless-bind (HasRequest address w) (λ _ w'. Consistent w')
      (λ p w'. Owned peer.break_fails p × Consistent w')
      (add_or_update_inbound_contact_request clock address (stripped_name name)
        (stripped_message message))
      (dispatch peer) w
      (add_or_update-Consistent clock address (stripped_name name) (stripped_message message) w c)
      (λ r w' c'.
        Ends-EndsUnless (HasRequest address w) (λ p v. Owned peer.break_fails p × Consistent v)
          (dispatch peer r w') (dispatch-Owned peer r w' e c'))
take_arrival-Owned clock peer address (process_ended true) w e c = (inr refl, c)
take_arrival-Owned clock peer address (process_ended false) w e c = (inl refl, c)
take_arrival-Owned clock peer address timed_out w e c = rw (e, EndsUnless) (inl refl, c)

-- Up to its wait, begun with consistent lists and no mutex held: provided that `Process` ends with an error once its connection is closed, the
-- function either waits for the user's answer, after the response "Pending", or it has assigned the
-- connection to a contact and returns no error, or it returns an error and the connection is closed or
-- was lost on its own. The lists stay consistent and the mutexes free. It blocks only if the peer is a contact
-- that has a request.
pub begin-Owned :
    (clock : Clock) (peer : Peer) (arrival : Arrival) (w : World)
    → peer.close_error ≡ true
    → Consistent w
    → EndsUnless
        (HasRequest (address_from_plain_host peer.remote_hostname).0 w)
        (λ p w'. Owned (is_over arrival || peer.break_fails) p × Consistent w')
        (begin clock peer arrival w)
unfolding begin
begin-Owned clock peer arrival w e c =
    elim (Bool-cases (address_from_plain_host peer.remote_hostname).1) [
      | inl ok ↦ rw ok (
          take_arrival-Owned clock peer (address_from_plain_host peer.remote_hostname).0 arrival w e
            c)
      | inr bad ↦ rw (bad, e, EndsUnless) (inl refl, c)
    ]

-- From the answer to its end, whatever consistent lists it finds by then, and with no mutex held, so that no
-- answer to the request is stuck: provided that `Process` ends with an error once its connection is closed, and
-- does not end without one before, the function returns; it has assigned the connection to a contact and returns no error, or it returns an
-- error and the connection is closed or was lost on its own. The lists stay consistent and the mutexes free.
pub resume-Owned :
    (peer : Peer) (request channel : ℕ) (answer : Answer) (w : World)
    → peer.close_error ≡ true
    → is_break answer ≡ false
    → Consistent w
    → Ends
        (λ p w'. Owned (is_lost answer || peer.break_fails) p × Consistent w')
        (resume peer request channel answer w)
unfolding resume
resume-Owned peer request channel (answered contact) w e b c =
    conclude-Owned peer (some request) contact w e c
resume-Owned peer request channel channel_closed w e b c = rw (e, Ends) (inl refl, c)
resume-Owned peer request channel (process_over true) w e b c =
    Ends-bind (λ _ w'. Consistent w') (λ p w'. Owned true p × Consistent w')
      (clear_contact_result_channel request channel) (λ _. return (returned true [])) w
      (Ends-map (Same w) Consistent (clear_contact_result_channel request channel w)
        (λ w' s. Consistent-Same w w' s c)
        (clear_contact_result_channel-Same request channel w c.free))
      (λ _ w' c'. (inr refl, c'))
resume-Owned peer request channel (process_over false) w e b c = cc
