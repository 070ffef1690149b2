-- ===== src/Cli/Client/Handlers.antt =====
-- The frontend (ricochet-cli/client.go) behind the handlers of the API (core/rpcserver.go) that change
-- the lists of the backend.
use ricochet_go.Common.{
  ℕ, Bool, not, Bytes, lookup, ltb, length, Option, none, some, inl, inr, Option-cases,
}
use ricochet_go.Common.Exec.{done, IfEnds}
use ricochet_go.Rpc.{ContactRequest}
use ricochet_go.Core.Contact.{Clock}
use ricochet_go.Core.ContactList.{World, AddResult, AddError, added, refused, remove_contact}
use ricochet_go.Core.InboundRequest.{accept, reject}
use ricochet_go.Core.Requests.{add_contact_request}
use ricochet_go.Core.RpcServer.{
  ok, is_outbound, add_reply, delete_reply, accept_reply, accept_named, rename_request,
  rpc_add_contact_request, rpc_delete_contact, rpc_accept_inbound_request,
  rpc_reject_inbound_request,
}
use ricochet_go.Cli.Client.{Client}
use ricochet_go.Cli.Client.Mirror.{Mirrors}
use ricochet_go.Cli.Client.Following.{either-Mirrors, remove_contact-Mirrors}
use ricochet_go.Cli.Client.Steps.{
  IsFollowed, bind-IsFollowed, accept-Following, reject-Following, set_nickname-Following,
}
use ricochet_go.Cli.Client.Calls.{add_contact_request-Following}

module _ (c : Client) where
  add_reply-Following : (r : AddResult) → IsFollowed c (add_reply r)
  unfolding add_reply
  add_reply-Following (added id) w m = m
  add_reply-Following (refused e) w m = m

  delete_reply-Following : (failed : Bool) → IsFollowed c (delete_reply failed)
  unfolding delete_reply
  delete_reply-Following failed w m = m

  accept_reply-Following : (r : AddResult × Option AddError) → IsFollowed c (accept_reply r)
  unfolding accept_reply
  accept_reply-Following (added id, none) w m = m
  accept_reply-Following (refused e, none) w m = m
  accept_reply-Following (added id, some e) w m = m
  accept_reply-Following (refused f, some e) w m = m

  accept_named-Following : (id : ℕ) (e : Option AddError) → IsFollowed c (accept_named id e)
  unfolding accept_named
  accept_named-Following id none =
      bind-IsFollowed c (accept id) accept_reply (accept-Following c id) accept_reply-Following
  accept_named-Following id (some e) = λ w m. m

  rename-Following : (id : ℕ) (name : Bytes) → IsFollowed c (rename_request id name)
  unfolding rename_request
  rename-Following id name w m =
      either-Mirrors (ltb 0 (length name)) c _ _ (set_nickname-Following c id name w m) m

  rpc_add-Following :
      (clock : Clock) (req : ContactRequest) → IsFollowed c (rpc_add_contact_request clock req)
  unfolding rpc_add_contact_request
  rpc_add-Following clock req w m = either-Mirrors (not (is_outbound req.direction)) c _ _ m (
      bind-IsFollowed c
        (add_contact_request clock req.address req.nickname req.from_nickname req.text) add_reply
        (add_contact_request-Following c clock req.address req.nickname req.from_nickname req.text)
        add_reply-Following w m)

  rpc_delete-Following : (address : Bytes) → IsFollowed c (rpc_delete_contact address)
  unfolding rpc_delete_contact
  rpc_delete-Following address w m = elim (Option-cases (lookup address w.contacts)) [
    | inl e ↦ rw (e, rpc_delete_contact, IfEnds) m
    | inr (id, e) ↦
        rw (e, rpc_delete_contact)
          (bind-IsFollowed c (remove_contact id) delete_reply (remove_contact-Mirrors c id)
            delete_reply-Following w m)
  ]

  rpc_accept-Following : (req : ContactRequest) → IsFollowed c (rpc_accept_inbound_request req)
  unfolding rpc_accept_inbound_request
  rpc_accept-Following req w m = elim (Option-cases (lookup req.address w.requests)) [
    | inl e ↦ either-Mirrors (is_outbound req.direction) c _ _ m (rw (e, IfEnds) m)
    | inr (id, e) ↦ either-Mirrors (is_outbound req.direction) c _ _ m (
        rw e (
          bind-IsFollowed c (rename_request id req.from_nickname) (accept_named id)
            (rename-Following id req.from_nickname) (accept_named-Following id) w m))
  ]

  rpc_reject-Following : (req : ContactRequest) → IsFollowed c (rpc_reject_inbound_request req)
  unfolding rpc_reject_inbound_request
  rpc_reject-Following req w m = elim (Option-cases (lookup req.address w.requests)) [
    | inl e ↦ either-Mirrors (is_outbound req.direction) c _ _ m (rw (e, IfEnds) m)
    | inr (id, e) ↦ either-Mirrors (is_outbound req.direction) c _ _ m (
        rw e (
          bind-IsFollowed c (reject id) (λ _. λ w'. done (ok tt) w') (reject-Following c id)
            (λ _ w' m'. m') w m))
  ]

  -- Once the contacts are populated, the frontend that handles the events which the backend publishes lists exactly the
  -- addresses of the backend's contacts after each call of the API that adds or deletes a contact, or
  -- answers a request, if the call returns, with an error or without.
  pub handlers-Mirrors :
      (clock : Clock) (address : Bytes) (req : ContactRequest) (w : World)
      → Mirrors c w
      → IfEnds (λ _ w'. Mirrors c w') (rpc_add_contact_request clock req w)
        × IfEnds (λ _ w'. Mirrors c w') (rpc_delete_contact address w)
        × IfEnds (λ _ w'. Mirrors c w') (rpc_accept_inbound_request req w)
        × IfEnds (λ _ w'. Mirrors c w') (rpc_reject_inbound_request req w)
  handlers-Mirrors clock address req w m = (
    rpc_add-Following clock req w m,
    rpc_delete-Following address w m,
    rpc_accept-Following req w m,
    rpc_reject-Following req w m,
  )
