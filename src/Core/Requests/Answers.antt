-- ===== src/Core/Requests/Answers.antt =====
-- core/inboundcontactrequest.go: what accepting and rejecting a request achieve.
use ricochet_go.Common.{
  ℕ, ◌≡◌, inl, inr, refl, sym, ap, subst, ◌∙◌, Bool, true, false, Option, none, some, Bytes,
  bytes_eq, bytes_eq_iff, bytes_eq_refl, lookup, erase, lookup-erase, if◌then◌else◌, Bool-cases,
  ◌==◌, ==_iff,
}
use ricochet_go.Common.Exec.{
  Exec, done, deadlock, fault, Ends, EndsUnless, EndsUnless-bind, EndsUnless-map, Ends-EndsUnless,
  ◌>>◌, return,
}
use ricochet_go.Core.ContactList.{
  World, AddError, AddResult, added, refused, add_new_contact, remove_inbound_contact_request,
}
use ricochet_go.Core.InboundRequest.{
  accept, accepted_data, finish_accept, accept_held, signal, announce, store, as_rejected, reject,
}
use ricochet_go.Core.Requests.Consistency.{
  Consistent, Nearly, Same, Consistent-Same, Nearly-Same, EndsUnless-taking,
}
use ricochet_go.Core.Requests.Steps.{
  IsUnheard, signal-Same, remove_inbound_contact_request-Consistent,
}
use ricochet_go.Core.Requests.Adding.{Added, add_new_contact-Added, HasAdded-Nearly}
use ricochet_go.Core.Requests.Calls.{Added-Same}

-- The request of the address is gone, and the contacts are those of the world `w`.
abbrev pub Closed : Bytes → World → World → Type 0
Closed a w w' = Consistent w' × (lookup a w'.requests ≡ none) × (w'.contacts ≡ w.contacts)

-- The same, without an error.
abbrev pub ClosedFine : Bytes → World → Option AddError → World → Type 0
ClosedFine a w e w' = (e ≡ none) × Closed a w w'

erased : (a : Bytes) (w : World) → lookup a (erase a w.requests) ≡ none
erased a w =
    lookup-erase a a w.requests
    ∙ ap (λ b. if b then none else lookup a w.requests) (bytes_eq_refl a)

remove-Closed :
    (a : Bytes) (id : ℕ) (v w : World)
    → Nearly a w
    → lookup a w.requests ≡ some id
    → w.contacts ≡ v.contacts
    → Ends (λ _ w'. Closed a v w') (remove_inbound_contact_request id w)
remove-Closed a id v w n l same =
    weaken (remove_inbound_contact_request id w)
      (remove_inbound_contact_request-Consistent a id w n l)
  where
    weaken :
        (r : Exec World Bool)
        → Ends
            (λ e w'.
              (e ≡ false)
              × Consistent w'
              × (w'.requests ≡ erase a w.requests)
              × (w'.contacts ≡ w.contacts))
            r
        → Ends (λ _ w'. Closed a v w') r
    weaken (done e w') (_, c, q, k) = (c, ap (lookup a) q ∙ erased a w, k ∙ same)
    weaken (deadlock s) h = h
    weaken fault h = h

-- The end of `acceptWithContact`.
signal_and_remove :
    (a : Bytes) (id : ℕ) (result : Option ℕ) (w : World)
    → Nearly a w
    → lookup a w.requests ≡ some id
    → EndsUnless
        (IsUnheard id w)
        (ClosedFine a w)
        ((signal id result >> remove_inbound_contact_request id >> return none) w)
signal_and_remove a id result w n l =
    EndsUnless-bind (IsUnheard id w) (λ _ w'. Closed a w w') (ClosedFine a w)
      (signal id result >> remove_inbound_contact_request id) (λ _. return none) w
      (EndsUnless-bind (IsUnheard id w) (λ _ w1. Same w w1) (λ _ w'. Closed a w w')
        (signal id result) (λ _. remove_inbound_contact_request id) w (signal-Same id result w)
        (λ _ w1 s.
          Ends-EndsUnless (IsUnheard id w) (λ _ w'. Closed a w w')
            (remove_inbound_contact_request id w1)
            (remove-Closed a id w w1 (Nearly-Same a w w1 s n) (ap (lookup a) s.requests ∙ l)
              s.contacts)))
      (λ _ w' h. (refl, h))

-- What `Accept` leaves behind.
abbrev pub Accepted : Bytes → ℕ → World → AddResult × Option AddError → World → Type 0
Accepted a id w (added contact, e) w' =
    (e ≡ none)
    × Consistent w'
    × ((b : Bytes)
        → lookup b w'.contacts ≡ (if bytes_eq a b then some contact else lookup b w.contacts))
    × (lookup a w'.requests ≡ none)
Accepted a id w (refused r, e) w' =
    (e ≡ some r) × Consistent w' × (w'.contacts ≡ w.contacts) × (w'.requests ≡ w.requests)

finish_accept-Accepted :
    (a : Bytes) (id : ℕ) (w : World) (r : AddResult) (w' : World)
    → Consistent w
    → lookup a w.requests ≡ some id
    → (w.request_at id).request_data.address ≡ a
    → Added (accepted_data (w.request_at id).request_data) w r w'
    → EndsUnless (IsUnheard id w) (Accepted a id w) (finish_accept id r w')
unfolding finish_accept accept_held
finish_accept-Accepted a id w (refused e) w' c l own h =
    let s = Added-Same _ w e w' h in (refl, Consistent-Same w w' s c, s.contacts, s.requests)
finish_accept-Accepted a id w (added contact) w' c l own h =
    let same : bytes_eq (w'.contact_at contact).contact_data.address
          (w'.request_at id).request_data.address
        ≡ true =
      (bytes_eq_iff _ _).1 (h.address ∙ ap (λ f. (f id).request_data.address) (sym h.request_at)) in
    let nearly : Nearly a w' = subst (λ b. Nearly b w') own (HasAdded-Nearly _ w contact w' h c) in
    let there : (b : Bytes)
        → lookup b w'.contacts ≡ (if bytes_eq a b then some contact else lookup b w.contacts) =
      λ b. h.listed b ∙ ap (λ k. if bytes_eq k b then some contact else lookup b w.contacts) own in
    EndsUnless-bind (IsUnheard id w) (ClosedFine a w') (Accepted a id w) (accept_held id contact)
      (λ e. return (added contact, e)) w'
      (EndsUnless-taking (w'.contact_at contact).locked w' (IsUnheard id w) (ClosedFine a w') _
        (nearly.free.contacts contact)
        (rw same (
          EndsUnless-map (IsUnheard id w') (IsUnheard id w) (ClosedFine a w') (ClosedFine a w') _
            (λ (channel, q, u). (
              channel,
              ap (λ f. (f id).result_channel) (sym h.request_at) ∙ q,
              ap (λ f. f channel) (sym h.listens) ∙ u,
            ))
            (λ e v p. p)
            (signal_and_remove a id (some contact) w' nearly (ap (lookup a) h.requests ∙ l)))))
      (λ e v (p, (k, gone, kept)). (p, k, λ b. ap (lookup b) kept ∙ there b, gone))

pub accept_outcome :
    (a : Bytes) (id : ℕ) (w : World)
    → Consistent w
    → lookup a w.requests ≡ some id
    → EndsUnless (IsUnheard id w) (Accepted a id w) (accept id w)
unfolding accept
accept_outcome a id w c l =
    let (own, _) = c.requests_own a id l in
    let d = accepted_data (w.request_at id).request_data in
    EndsUnless-taking (w.request_locked id) w (IsUnheard id w) (Accepted a id w) _
      (c.free.requests id)
      (rw (c.pending a id l) (
        EndsUnless-bind (IsUnheard id w) (Added d w) (Accepted a id w) (add_new_contact d)
          (finish_accept id) w
          (Ends-EndsUnless (IsUnheard id w) (Added d w) (add_new_contact d w)
            (add_new_contact-Added d w c.free))
          (λ r w' h. finish_accept-Accepted a id w r w' c l own h)))

-- A request that is marked as rejected, while it is still listed under its address.
store-Nearly :
    (a : Bytes) (id : ℕ) (w : World)
    → Consistent w
    → lookup a w.requests ≡ some id
    → Nearly a (store id (as_rejected (w.request_at id)) w)
unfolding store
store-Nearly a id w c l = record {
  contacts_own = c.contacts_own;
  requests_own = λ b i k.
      let (own, lt) = c.requests_own b i k in
      elim (Bool-cases (id == i)) [
        | inl e ↦
            rw e (ap (λ j. (w.request_at j).request_data.address) ((==_iff id i).0 e) ∙ own, lt)
        | inr e ↦ rw e (own, lt)
      ];
  pending = λ b i k. elim (Bool-cases (id == i)) [
    | inl e ↦
        let (here, _) = c.requests_own a id l in
        let (own, _) = c.requests_own b i k in
        inl (sym here ∙ ap (λ j. (w.request_at j).request_data.address) ((==_iff id i).0 e) ∙ own)
    | inr e ↦ inr (rw e (c.pending b i k))
  ];
  apart = λ b. inr (c.apart b);
  free = record { list = c.free.list; contacts = c.free.contacts; requests = c.free.requests };
}

store-IsUnheard :
    (id : ℕ) (w : World)
    → IsUnheard id (store id (as_rejected (w.request_at id)) w)
    → IsUnheard id w
unfolding store
store-IsUnheard id w (channel, q, u) = (channel, rw ((==_iff id id).1 refl) at q, u)

-- In consistent lists, with no mutex held and no other call under way, rejecting a listed request removes it, keeps the contacts as they are and
-- the lists consistent. It blocks only if the connection of the request no longer listens for its outcome.
pub reject_outcome :
    (a : Bytes) (id : ℕ) (w : World)
    → Consistent w
    → lookup a w.requests ≡ some id
    → EndsUnless (IsUnheard id w) (λ _ w'. Closed a w w') (reject id w)
unfolding reject
reject_outcome a id w c l =
    let v = store id (as_rejected (w.request_at id)) w in
    let nearly = store-Nearly a id w c l in
    let heard : EndsUnless (IsUnheard id w) (λ _ w1. Same v w1) (signal id none v) =
      EndsUnless-map (IsUnheard id v) (IsUnheard id w) (λ _ w1. Same v w1) (λ _ w1. Same v w1)
        (signal id none v) (store-IsUnheard id w) (λ x s h. h) (signal-Same id none v) in
    EndsUnless-taking (w.request_locked id) w (IsUnheard id w) (λ _ w'. Closed a w w') _
      (c.free.requests id)
      (rw (c.pending a id l) (
        EndsUnless-bind (IsUnheard id w) (λ _ w1. Closed a w w1) (λ _ w'. Closed a w w')
          (signal id none >> announce id >> remove_inbound_contact_request id) (λ _. return tt) v
          (EndsUnless-bind (IsUnheard id w) (λ _ w1. Same v w1) (λ _ w'. Closed a w w')
            (signal id none >> announce id) (λ _. remove_inbound_contact_request id) v
            (EndsUnless-bind (IsUnheard id w) (λ _ w1. Same v w1) (λ _ w1. Same v w1)
              (signal id none) (λ _. announce id) v heard
              (λ _ w1 s.
                unfold announce in
                record {
                  contacts = s.contacts;
                  requests = s.requests;
                  next = s.next;
                  contact_address = s.contact_address;
                  request_address = s.request_address;
                  request_rejected = s.request_rejected;
                  list_locked = s.list_locked;
                  contact_locked = s.contact_locked;
                  request_locked = s.request_locked;
                }))
            (λ _ w1 s.
              Ends-EndsUnless (IsUnheard id w) (λ _ w'. Closed a w w')
                (remove_inbound_contact_request id w1)
                (remove-Closed a id w w1 (Nearly-Same a v w1 s nearly)
                  (ap (lookup a) s.requests ∙ unfold store in l)
                  (s.contacts ∙ unfold store in refl))))
          (λ _ w' h. h)))
