-- ===== src/Core/Requests/Steps.antt =====
-- core/contactlist.go, core/inboundcontactrequest.go: what the single steps do to the lists.
use ricochet_go.Common.{
  ℕ, ◌≡◌, inl, inr, refl, ap, ◌∙◌, Bool, true, false, Option, none, some, List, Bytes,
  bytes_eq_refl, lookup, erase, lookup-erase, if◌then◌else◌, arith, Bool-cases, Option-cases, ◌==◌,
  ==_iff,
}
use ricochet_go.Common.Exec.{Ends, EndsUnless}
use ricochet_go.Core.ContactList.{
  InboundRequest, World, Effect, update_at, is_listed, remove_inbound_contact_request,
}
use ricochet_go.Core.InboundRequest.{
  store, signal, update, updated, get_contact_result_channel, without_channel, close_connection,
  clear_contact_result_channel, set_nickname,
}
use ricochet_go.Core.Sanitize.{is_nickname_acceptable}
use ricochet_go.Core.Requests.Consistency.{
  IsFree, Consistent, Nearly, Same, Nearly-Consistent, Ends-taking,
}

pub Same-refl : (w : World) → Same w w
Same-refl w = record {
  contacts = refl;
  requests = refl;
  next = refl;
  contact_address = λ i. refl;
  request_address = λ i. refl;
  request_rejected = λ i. refl;
  list_locked = refl;
  contact_locked = λ i. refl;
  request_locked = refl;
}

Same-either : (b : Bool) {w x y : World} → Same w x → Same w y → Same w (if b then x else y)
Same-either true p q = p
Same-either false p q = q

pub store-Same :
    (id : ℕ) (r : InboundRequest) (w : World)
    → r.request_data.address ≡ (w.request_at id).request_data.address
    → r.request_data.rejected ≡ (w.request_at id).request_data.rejected
    → Same w (store id r w)
unfolding store
store-Same id r w a q = record {
  contacts = refl;
  requests = refl;
  next = refl;
  contact_address = λ i. refl;
  request_address = λ i. elim (Bool-cases (id == i)) [
    | inl e ↦ rw e (a ∙ ap (λ k. (w.request_at k).request_data.address) ((==_iff id i).0 e))
    | inr e ↦ rw e
  ];
  request_rejected = λ i. elim (Bool-cases (id == i)) [
    | inl e ↦ rw e (q ∙ ap (λ k. (w.request_at k).request_data.rejected) ((==_iff id i).0 e))
    | inr e ↦ rw e
  ];
  list_locked = refl;
  contact_locked = λ i. refl;
  request_locked = refl;
}

-- The connection that made the request has left its `select`.
abbrev pub IsUnheard : ℕ → World → Type 0
IsUnheard id w =
    (channel : ℕ) × ((w.request_at id).result_channel ≡ some channel) × (w.listens channel ≡ false)

-- Sending the outcome of a request leaves the lists alone, and blocks only if nobody hears it.
pub signal-Same :
    (id : ℕ) (result : Option ℕ) (w : World)
    → EndsUnless (IsUnheard id w) (λ _ w'. Same w w') (signal id result w)
unfolding signal store
signal-Same id result w = elim (Option-cases (w.request_at id).result_channel) [
  | inl e ↦ rw (e, EndsUnless) (Same-refl w)
  | inr (channel, e) ↦ elim (Bool-cases (w.listens channel)) [
    | inl l ↦
        let s = store-Same id (record (w.request_at id) { result_channel = none }) w refl refl in
        rw (e, l, EndsUnless)
          (record {
            contacts = s.contacts;
            requests = s.requests;
            next = s.next;
            contact_address = s.contact_address;
            request_address = s.request_address;
            request_rejected = s.request_rejected;
            list_locked = refl;
            contact_locked = λ i. refl;
            request_locked = refl;
          })
    | inr l ↦ rw (e, l, EndsUnless) (channel, e, l)
  ]
]

pub update-Same :
    (id : ℕ) (nickname message : Bytes) (w : World)
    → IsFree w
    → Ends (λ _ w'. Same w w') (update id nickname message w)
unfolding update updated
update-Same id nickname message w free =
    rw (free.requests id, Ends)
      (let s = store-Same id (updated nickname message (w.request_at id)) w refl refl in
        Same-either (w.request_at id).request_data.rejected (Same-refl w) (
          unfold store in
          record {
            contacts = s.contacts;
            requests = s.requests;
            next = s.next;
            contact_address = s.contact_address;
            request_address = s.request_address;
            request_rejected = s.request_rejected;
            list_locked = refl;
            contact_locked = λ i. refl;
            request_locked = refl;
          }))

-- `Same` for a request that keeps its data, with whatever trace and channels.
keep_data-Same :
    (id : ℕ) (r : InboundRequest) (w : World) (n : ℕ) (t : List Effect)
    → r.request_data ≡ (w.request_at id).request_data
    → Same w (record w { request_at = update_at id r w.request_at; channels = n; trace = t })
keep_data-Same id r w n t e =
    let s = store-Same id r w (ap (λ d. d.address) e) (ap (λ d. d.rejected) e) in
    unfold store in
    record {
      contacts = s.contacts;
      requests = s.requests;
      next = s.next;
      contact_address = s.contact_address;
      request_address = s.request_address;
      request_rejected = s.request_rejected;
      list_locked = refl;
      contact_locked = λ i. refl;
      request_locked = refl;
    }

pub get_contact_result_channel-Same :
    (id : ℕ) (w : World) → IsFree w → Ends (λ _ w'. Same w w') (get_contact_result_channel id w)
unfolding get_contact_result_channel store
get_contact_result_channel-Same id w free =
    rw (free.requests id, Ends)
      (keep_data-Same id (record (w.request_at id) { result_channel = some w.channels }) w _ _ refl)

without_channel-Same : (id : ℕ) (w : World) → Same w (without_channel id w)
unfolding without_channel store
without_channel-Same id w =
    keep_data-Same id (record (w.request_at id) { result_channel = none }) w w.channels _ refl

pub close_connection-Same :
    (id : ℕ) (w : World) → IsFree w → Ends (λ _ w'. Same w w') (close_connection id w)
unfolding close_connection
close_connection-Same id w free = rw (free.requests id, Ends) (without_channel-Same id w)

pub clear_contact_result_channel-Same :
    (id channel : ℕ) (w : World)
    → IsFree w
    → Ends (λ _ w'. Same w w') (clear_contact_result_channel id channel w)
unfolding clear_contact_result_channel
clear_contact_result_channel-Same id channel w free =
    rw (free.requests id, Ends)
      (Same-either (is_listed channel (w.request_at id).result_channel) (without_channel-Same id w)
        (Same-refl w))

pub set_nickname-Same :
    (id : ℕ) (nickname : Bytes) (w : World)
    → IsFree w
    → Ends (λ _ w'. Same w w') (set_nickname id nickname w)
unfolding set_nickname
set_nickname-Same id nickname w free = elim (Bool-cases (is_nickname_acceptable nickname)) [
  | inl e ↦ rw (free.requests id, e, Ends) (store-Same id _ w refl refl)
  | inr e ↦ rw (free.requests id, e, Ends) (Same-refl w)
]

-- Removing a request that is listed.
pub remove_inbound_contact_request-Consistent :
    (a : Bytes) (id : ℕ) (w : World)
    → Nearly a w
    → lookup a w.requests ≡ some id
    → Ends
        (λ e w'.
          (e ≡ false)
          × Consistent w'
          × (w'.requests ≡ erase a w.requests)
          × (w'.contacts ≡ w.contacts))
        (remove_inbound_contact_request id w)
unfolding remove_inbound_contact_request
remove_inbound_contact_request-Consistent a id w n h =
    let (own, _) = n.requests_own a id h in
    let listed : is_listed id (lookup (w.request_at id).request_data.address w.requests) ≡ true =
      rw (own, h) ((==_iff id id).1 refl) in
    Ends-taking w.list_locked w _ _ n.free.list (
      rw (listed, own)
        (
          refl,
          Nearly-Consistent a _ (erased _) (
              lookup-erase a a w.requests
              ∙ ap (λ b. if b then none else lookup a w.requests) (bytes_eq_refl a)),
          refl,
          refl,
        ))
  where
    kept :
        (b : Bytes) (i : ℕ) → lookup b (erase a w.requests) ≡ some i → lookup b w.requests ≡ some i
    kept b i l = ground (arith, lookup-erase a b w.requests)

    missing : (b : Bytes) → lookup b w.requests ≡ none → lookup b (erase a w.requests) ≡ none
    missing b l = ground (arith, lookup-erase a b w.requests)

    erased : (t : List Effect) → Nearly a (record w { requests = erase a w.requests; trace = t })
    erased t = record {
      contacts_own = n.contacts_own;
      requests_own = λ b i l. n.requests_own b i (kept b i l);
      pending = λ b i l. n.pending b i (kept b i l);
      apart = λ b. elim (n.apart b) [
        | inl e ↦ inl e
        | inr (inl p) ↦ inr (inl p)
        | inr (inr p) ↦ inr (inr (missing b p))
      ];
      free = record { list = n.free.list; contacts = n.free.contacts; requests = n.free.requests };
    }
