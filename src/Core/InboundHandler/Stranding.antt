-- ===== src/Core/InboundHandler/Stranding.antt =====
-- core/inboundcontactrequest.go: an answer to a request whose connection has just ended.
use ricochet_go.Common.{
  ℕ, ◌≡◌, refl, sym, ap, ◌∙◌, Bool, true, false, Option, none, some, Bytes, bytes_eq, bytes_eq_iff,
  lookup, ==_iff, ◌==◌,
}
use ricochet_go.Common.Exec.{
  Exec, done, deadlock, fault, Ends, Reaches, Reaches-bind, IsBlocked, ◌>>◌, return,
}
use ricochet_go.Core.ContactList.{
  World, AddResult, added, refused, taking, add_new_contact, remove_inbound_contact_request,
}
use ricochet_go.Core.InboundRequest.{
  accept, accepted_data, finish_accept, accept_held, signal, announce, store, as_rejected, reject,
  clear_contact_result_channel,
}
use ricochet_go.Core.Requests.Consistency.{Consistent}
use ricochet_go.Core.Requests.Steps.{IsUnheard}
use ricochet_go.Core.Requests.Adding.{Added, add_new_contact-Added}
use ricochet_go.Core.Requests.Deadlocks.{IsWelcome, not_refused, then_blocks}
use ricochet_go.Core.InboundHandler.{Peer, process_over, resume}

abbrev Never : {A : Type 0} → A → World → Type 0
Never a w = ⊥

-- The mutex of the request is held.
abbrev Held : ℕ → World → Type 0
Held id w = w.request_locked id ≡ true

Ends-Reaches :
    {A : Type 0} (P : A → World → Type 0) (Q : World → Type 0) (r : Exec World A)
    → Ends P r
    → Reaches P Q r
Ends-Reaches P Q (done a w) h = h
Ends-Reaches P Q (deadlock w) h = absurd h
Ends-Reaches P Q fault h = h

Reaches-taking :
    {A : Type 0} (held : Bool) (w : World) (P : A → World → Type 0) (Q : World → Type 0)
    (m : Exec World A)
    → held ≡ false
    → Reaches P Q m
    → Reaches P Q (taking held w m)
Reaches-taking true w P Q m e h = cc
Reaches-taking false w P Q m e h = h

taking_held :
    {A : Type 0} (held : Bool) (w : World) (m : Exec World A)
    → held ≡ true
    → IsBlocked (taking held w m)
taking_held true w m e = tt
taking_held false w m e = cc

-- What follows a run that never returns does not matter.
Never-then :
    {A B : Type 0} (Q : World → Type 0) (m : World → Exec World A) (f : A → World → Exec World B)
    (w : World)
    → Reaches Never Q (m w)
    → Reaches Never Q (elim (m w) [ done a s ↦ f a s | deadlock s ↦ deadlock s | fault ↦ fault ])
Never-then Q m f w h = Reaches-bind Never Never Q m f w h (λ a s x. absurd x)

signal-Held :
    (id : ℕ) (result : Option ℕ) (w : World)
    → IsUnheard id w
    → Reaches Never (Held id) (signal id result w)
unfolding signal
signal-Held id result w (channel, q, u) =
    let here : (id == id) ≡ true = (==_iff id id).1 refl in rw (q, u, Reaches) (rw here refl)

finish_accept-Held :
    (id : ℕ) (w : World) (r : AddResult) (w' : World)
    → IsUnheard id w
    → IsWelcome (accepted_data (w.request_at id).request_data) w
    → Added (accepted_data (w.request_at id).request_data) w r w'
    → Reaches Never (Held id) (finish_accept id r w')
unfolding finish_accept accept_held
finish_accept-Held id w (refused e) w' u k h = absurd (not_refused _ w e w' k h)
finish_accept-Held id w (added contact) w' (channel, q, u) k h =
    let same : bytes_eq (w'.contact_at contact).contact_data.address
          (w'.request_at id).request_data.address
        ≡ true =
      (bytes_eq_iff _ _).1 (h.address ∙ ap (λ f. (f id).request_data.address) (sym h.request_at)) in
    let unheard : IsUnheard id w' = (
      channel,
      ap (λ f. (f id).result_channel) h.request_at ∙ q,
      ap (λ f. f channel) h.listens ∙ u,
    ) in
    let here : (contact == contact) ≡ true = (==_iff contact contact).1 refl in
    let free : (w'.contact_at contact).locked ≡ false = h.held contact ∙ rw here refl in
    Never-then (Held id) (accept_held id contact) (λ e. return (added contact, e)) w'
      (Reaches-taking (w'.contact_at contact).locked w' Never (Held id) _ free (
        rw same (
          Never-then (Held id) (signal id (some contact) >> remove_inbound_contact_request id)
            (λ _. return none) w'
            (Never-then (Held id) (signal id (some contact))
              (λ _. remove_inbound_contact_request id) w'
              (signal-Held id (some contact) w' unheard)))))

store-IsUnheard :
    (id : ℕ) (w : World)
    → IsUnheard id w
    → IsUnheard id (store id (as_rejected (w.request_at id)) w)
unfolding store
store-IsUnheard id w (channel, q, u) = (channel, rw ((==_iff id id).1 refl) q, u)

-- Neither the handler of the connection, whose `Process` has ended, nor any answer to the request returns.
abbrev pub Stranded : Peer → ℕ → ℕ → World → Type 0
Stranded peer id channel w =
    ((e : Bool) → IsBlocked (resume peer id channel (process_over e) w))
    × IsBlocked (accept id w)
    × IsBlocked (reject id w)

Held-Stranded : (peer : Peer) (id channel : ℕ) (w : World) → Held id w → Stranded peer id channel w
unfolding resume clear_contact_result_channel accept reject
Held-Stranded peer id channel w h = (
  λ e.
      then_blocks (clear_contact_result_channel id channel) _ w
        (taking_held (w.request_locked id) w _ h),
  taking_held (w.request_locked id) w _ h,
  taking_held (w.request_locked id) w _ h,
)

-- The run blocks for ever, in a state that strands the others.
abbrev pub Strands : {A : Type 0} → Peer → ℕ → ℕ → Exec World A → Type 0
Strands peer id channel r = Reaches (λ _ _. ⊥) (Stranded peer id channel) r

Held-Strands :
    {A : Type 0} (peer : Peer) (id channel : ℕ) (r : Exec World A)
    → Reaches Never (Held id) r
    → Strands peer id channel r
Held-Strands peer id channel (done a w) h = h
Held-Strands peer id channel (deadlock w) h = Held-Stranded peer id channel w h
Held-Strands peer id channel fault h = h

-- In consistent lists with no mutex held, where the connection of a listed request has left its `select`: rejecting
-- the request blocks, and so does accepting it if nothing stands in the way of the contact. In the state that each
-- blocks in, the connection's handler, which takes the mutex of the request when it goes on, blocks too, and so
-- does every further attempt to accept or to reject the request.
pub answers_strand :
    (peer : Peer) (a : Bytes) (id channel : ℕ) (w : World)
    → Consistent w
    → lookup a w.requests ≡ some id
    → IsUnheard id w
    → IsWelcome (accepted_data (w.request_at id).request_data) w
    → Strands peer id channel (accept id w) × Strands peer id channel (reject id w)
unfolding accept reject
answers_strand peer a id channel w c l u k =
    let d = accepted_data (w.request_at id).request_data in
    let v = store id (as_rejected (w.request_at id)) w in
    (
      Held-Strands peer id channel (accept id w) (
          Reaches-taking (w.request_locked id) w Never (Held id) _ (c.free.requests id) (
            rw (c.pending a id l) (
              Reaches-bind (Added d w) Never (Held id) (add_new_contact d) (finish_accept id) w
                (Ends-Reaches (Added d w) (Held id) (add_new_contact d w)
                  (add_new_contact-Added d w c.free))
                (λ r w' h. finish_accept-Held id w r w' u k h)))),
      Held-Strands peer id channel (reject id w) (
          Reaches-taking (w.request_locked id) w Never (Held id) _ (c.free.requests id) (
            rw (c.pending a id l) (
              Never-then (Held id)
                (signal id none >> announce id >> remove_inbound_contact_request id)
                (λ _. return tt) v
                (Never-then (Held id) (signal id none >> announce id)
                  (λ _. remove_inbound_contact_request id) v
                  (Never-then (Held id) (signal id none) (λ _. announce id) v
                    (signal-Held id none v (store-IsUnheard id w u))))))),
    )
