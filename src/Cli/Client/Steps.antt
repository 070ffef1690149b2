-- ===== src/Cli/Client/Steps.antt =====
-- The frontend (ricochet-cli/client.go) behind the steps of a request (core/inboundcontactrequest.go).
use ricochet_go.Common.{
  ℕ, Bool, true, false, Bytes, bytes_eq, lookup, if◌then◌else◌, Option, some, none, inl, inr, refl,
  Bool-cases, Option-cases, [], ◌∷◌,
}
use ricochet_go.Common.Exec.{Exec, done, IfEnds, IfEnds-bind, ◌>>=◌, ◌>>◌, return}
use ricochet_go.Rpc.{ContactEventType}
use ricochet_go.Core.ContactList.{
  World, M, AddResult, AddError, added, refused, add_new_contact, remove_inbound_contact_request,
  is_listed, inbound_request_changed, send_result, close_channel, close_request, request_event,
  InboundRequest,
}
use ricochet_go.Core.InboundRequest.{
  signal, store, announce, accept_held, accept_with_contact, accepted_data, finish_accept, accept,
  as_rejected, reject, update, updated, set_nickname, get_contact_result_channel, without_channel,
  close_connection, clear_contact_result_channel, closing,
}
use ricochet_go.Core.Sanitize.{is_nickname_acceptable}
use ricochet_go.Cli.Client.{Client}
use ricochet_go.Cli.Client.Mirror.{Mirrors}
use ricochet_go.Cli.Client.Following.{
  Keeps, push_all, either-Mirrors, taking-Mirrors, add_new_contact-Mirrors,
}

module _ (c : Client) where
  abbrev pub Following : {A : Type 0} → Exec World A → Type 0
  Following r = IfEnds (λ _ w'. Mirrors c w') r

  -- The frontend follows the run of a program from wherever it does.
  abbrev pub IsFollowed : {A : Type 0} → M A → Type 0
  IsFollowed m = (w : World) → Mirrors c w → Following (m w)

  pub bind-IsFollowed :
      {A B : Type 0} (m : M A) (f : A → M B)
      → IsFollowed m
      → ((a : A) → IsFollowed (f a))
      → IsFollowed (m >>= f)
  bind-IsFollowed m f h k w p =
      IfEnds-bind (λ _ w'. Mirrors c w') (λ _ w'. Mirrors c w') m f w (h w p) k

  pub then-IsFollowed :
      {A B : Type 0} (m : M A) (k : M B) → IsFollowed m → IsFollowed k → IsFollowed (m >> k)
  then-IsFollowed m k h l w p =
      IfEnds-bind (λ _ w'. Mirrors c w') (λ _ w'. Mirrors c w') m (λ _. k) w (h w p) (λ _. l)

  pub return-IsFollowed : {A : Type 0} (a : A) → IsFollowed {A = A} (return a)
  return-IsFollowed a w p = p

  pub signal-Following :
      (id : ℕ) (result : Option ℕ) (w : World) → Mirrors c w → Following (signal id result w)
  unfolding signal store
  signal-Following id result w m = elim (Option-cases (w.request_at id).result_channel) [
    | inl e ↦ rw (e, IfEnds) m
    | inr (channel, e) ↦ elim (Bool-cases (w.listens channel)) [
      | inl l ↦
          rw (e, l, IfEnds)
            (push_all c w.contacts w.trace (send_result channel result ∷ close_channel channel ∷ [])
              (refl, (refl, tt)) m)
      | inr l ↦ rw (e, l, IfEnds) tt
    ]
  ]

  pub remove-Following :
      (id : ℕ) (w : World) → Mirrors c w → Following (remove_inbound_contact_request id w)
  unfolding remove_inbound_contact_request
  remove-Following id w m =
      let r = (w.request_at id).request_data in
      taking-Mirrors w.list_locked w c _ (
        either-Mirrors (is_listed id (lookup r.address w.requests)) c _ _
          (push_all c w.contacts w.trace
            (close_request id ∷ request_event ContactEventType.delete r ∷ []) (refl, (refl, tt)) m)
          m)

  pub changed_Keeps : (r : InboundRequest) → Keeps (inbound_request_changed r)
  unfolding inbound_request_changed
  changed_Keeps r = elim (Bool-cases r.notifies) [ inl e ↦ rw e (refl, tt) | inr e ↦ rw e tt ]

  pub announce-Following : (id : ℕ) (w : World) → Mirrors c w → Following (announce id w)
  unfolding announce
  announce-Following id w m =
      push_all c w.contacts w.trace (inbound_request_changed (w.request_at id))
        (changed_Keeps (w.request_at id)) m

  accept_held-Following : (id contact : ℕ) → IsFollowed (accept_held id contact)
  unfolding accept_held
  accept_held-Following id contact w m = taking-Mirrors (w.contact_at contact).locked w c _ (
      either-Mirrors {A = Option AddError}
        (bytes_eq (w.contact_at contact).contact_data.address
          (w.request_at id).request_data.address)
        c _ _
        (then-IsFollowed {B = Option AddError}
          (signal id (some contact) >> remove_inbound_contact_request id) (return none)
          (then-IsFollowed (signal id (some contact)) (remove_inbound_contact_request id)
            (signal-Following id (some contact)) (remove-Following id))
          (return-IsFollowed {A = Option AddError} none) w m)
        m)

  pub accept_with-Following : (id contact : ℕ) → IsFollowed (accept_with_contact id contact)
  unfolding accept_with_contact
  accept_with-Following id contact w m =
      taking-Mirrors (w.request_locked id) w c _ (accept_held-Following id contact w m)

  pub finish_accept-Following : (id : ℕ) (r : AddResult) → IsFollowed (finish_accept id r)
  unfolding finish_accept
  finish_accept-Following id (refused e) = λ w m. m
  finish_accept-Following id (added contact) =
      bind-IsFollowed {B = AddResult × Option AddError} (accept_held id contact)
        (λ e. return (added contact, e)) (accept_held-Following id contact)
        (λ e. return-IsFollowed {A = AddResult × Option AddError} (added contact, e))

  pub accept-Following : (id : ℕ) → IsFollowed (accept id)
  unfolding accept
  accept-Following id w m =
      let r = (w.request_at id).request_data in
      taking-Mirrors (w.request_locked id) w c _ (
        either-Mirrors r.rejected c _ _ m (
          bind-IsFollowed (add_new_contact (accepted_data r)) (finish_accept id)
            (add_new_contact-Mirrors c (accepted_data r)) (finish_accept-Following id) w m))

  pub stored : (id : ℕ) (r : InboundRequest) (w : World) → Mirrors c w → Mirrors c (store id r w)
  unfolding store
  stored id r w m = m

  pub reject-Following : (id : ℕ) → IsFollowed (reject id)
  unfolding reject
  reject-Following id w m =
      let closed =
        then-IsFollowed (signal id none >> announce id) (remove_inbound_contact_request id)
          (then-IsFollowed (signal id none) (announce id) (signal-Following id none)
            (announce-Following id))
          (remove-Following id) in
      taking-Mirrors (w.request_locked id) w c _ (
        either-Mirrors (w.request_at id).request_data.rejected c _ _ m (
          then-IsFollowed (signal id none >> announce id >> remove_inbound_contact_request id)
            (return tt) closed (return-IsFollowed tt) (store id (as_rejected (w.request_at id)) w)
            (stored id (as_rejected (w.request_at id)) w m)))

  pub set_nickname-Following : (id : ℕ) (nickname : Bytes) → IsFollowed (set_nickname id nickname)
  unfolding set_nickname
  set_nickname-Following id nickname w m =
      let r = w.request_at id in
      taking-Mirrors (w.request_locked id) w c _ (
        either-Mirrors (is_nickname_acceptable nickname) c _ _
          (stored id
            (record r { request_data = record (r.request_data) { from_nickname = nickname } }) w m)
          m)

  pub closing-Keeps : (o : Option ℕ) → Keeps (closing o)
  closing-Keeps none = tt
  closing-Keeps (some channel) = (refl, tt)

  pub waits-Following : (id : ℕ) → IsFollowed (get_contact_result_channel id)
  unfolding get_contact_result_channel store
  waits-Following id w m = taking-Mirrors (w.request_locked id) w c _ (
      push_all c w.contacts w.trace (closing (w.request_at id).result_channel)
        (closing-Keeps (w.request_at id).result_channel) m)

  without_channel-Mirrors : (id : ℕ) (w : World) → Mirrors c w → Mirrors c (without_channel id w)
  unfolding without_channel store
  without_channel-Mirrors id w m =
      push_all c w.contacts w.trace (closing (w.request_at id).result_channel)
        (closing-Keeps (w.request_at id).result_channel) m

  pub either_world :
      (b : Bool) (w v : World) → Mirrors c w → Mirrors c v → Mirrors c (if b then w else v)
  either_world true w v h k = h
  either_world false w v h k = k

  pub close-Following : (id : ℕ) → IsFollowed (close_connection id)
  unfolding close_connection
  close-Following id w m =
      taking-Mirrors (w.request_locked id) w c (done tt (without_channel id w))
        (without_channel-Mirrors id w m)

  pub clear-Following : (id channel : ℕ) → IsFollowed (clear_contact_result_channel id channel)
  unfolding clear_contact_result_channel
  clear-Following id channel w m = taking-Mirrors (w.request_locked id) w c (done tt _) (
      either_world (is_listed channel (w.request_at id).result_channel) _ _
        (without_channel-Mirrors id w m) m)

  pub update-Following :
      (id : ℕ) (nickname message : Bytes) → IsFollowed (update id nickname message)
  unfolding update store
  update-Following id nickname message w m =
      let r = updated nickname message (w.request_at id) in
      taking-Mirrors (w.request_locked id) w c (done tt _) (
        either_world (w.request_at id).request_data.rejected _ _ m
          (push_all c w.contacts w.trace (inbound_request_changed r) (changed_Keeps r) m))
