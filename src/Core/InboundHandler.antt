-- ===== src/Core/InboundHandler.antt =====
-- core/inboundcontactrequest.go: `HandleInboundRequestConnection`, which owns a connection that belongs
-- to no known contact. The function runs up to its wait for the user's answer in `begin`, and from
-- there to its end in `resume`; in between, other calls change the lists. The protocol library, the
-- timer and the peer answer as arguments.
pub mod Ownership
pub mod Stranding
pub mod Tests
use ricochet_go.Common.{
  ℕ, Bool, true, false, not, ◌&&◌, ltb, Option, none, some, List, [], ◌∷◌, Bytes, length,
  if◌then◌else◌,
}
use ricochet_go.Common.Exec.{Exec, done, deadlock, fault, ◌>>=◌, ◌>>◌, return}
use ricochet_go.Core.Address.{address_from_plain_host}
use ricochet_go.Core.Sanitize.{is_nickname_acceptable, is_message_acceptable}
use ricochet_go.Core.Contact.{Clock}
use ricochet_go.Core.ContactList.{World, M, remove_inbound_contact_request}
use ricochet_go.Core.InboundRequest.{
  get_contact_result_channel, clear_contact_result_channel, is_rejected_request,
}
use ricochet_go.Core.Requests.{Received, add_or_update_inbound_contact_request}

-- The texts that the handler of the channel passes on: an unacceptable one becomes empty.
unfoldable pub stripped_name : Bytes → Bytes
unfolding is_nickname_acceptable
stripped_name name = if ltb 0 (length name) && not (is_nickname_acceptable name) then [] else name

unfoldable pub stripped_message : Bytes → Bytes
unfolding is_message_acceptable
stripped_message message =
    if ltb 0 (length message) && not (is_message_acceptable message) then [] else message

pub data Response : Type 0 where
  pending accepted rejected : Response

-- What is done to the connection.
pub data Effect : Type 0 where
  close : Effect
  respond : Response → Effect
  stop_processing : Effect  -- `conn.Break`
  assign : ℕ → Effect

-- The first `select`: a request, the end of `Process` (`true`: with an error), or the timer.
pub data Arrival : Type 0 where
  request_received : Bytes → Bytes → Arrival
  process_ended : Bool → Arrival
  timed_out : Arrival

-- The second one: a contact or nil on the result channel, the channel closed, or the end of `Process`.
pub data Answer : Type 0 where
  answered : Option ℕ → Answer
  channel_closed : Answer
  process_over : Bool → Answer

-- The function has returned, with an error or not, or it waits for the answer to a request on a channel.
pub data Progress : Type 0 where
  returned : Bool → List Effect → Progress
  waits : ℕ → ℕ → List Effect → Progress

-- `close_error` says whether `Process` returns an error once the connection is closed, `break_fails`
-- whether `conn.Break` does.
pub record Peer : Type 0 where
  pub remote_hostname : Bytes
  pub close_error : Bool
  pub break_fails : Bool

after_removal : Peer → Bool → Progress
after_removal peer e = returned peer.close_error (respond rejected ∷ close ∷ [])

-- The end of the function: there is a response.
unfoldable pub conclude : Peer → Option ℕ → Option ℕ → M Progress
unfolding remove_inbound_contact_request after_removal
conclude peer request (some contact) w =
    done
      (if peer.break_fails
        then returned true (respond accepted ∷ stop_processing ∷ [])
        else returned false (respond accepted ∷ stop_processing ∷ assign contact ∷ []))
      w
conclude peer (some request) none w =
    (remove_inbound_contact_request request >>= λ e. return (after_removal peer e)) w
conclude peer none none w = done (returned peer.close_error (respond rejected ∷ close ∷ [])) w

unfoldable pub start_waiting : ℕ → M Progress
unfolding get_contact_result_channel
start_waiting request = get_contact_result_channel request >>= λ channel.
    return (waits request channel (respond pending ∷ []))

unfoldable pub after_test : Peer → ℕ → Bool → M Progress
unfolding conclude start_waiting
after_test peer request rejected_before w =
    if rejected_before then conclude peer (some request) none w else start_waiting request w

-- With the request and the contact that `AddOrUpdateInboundContactRequest` returns.
unfoldable pub dispatch : Peer → Received → M Progress
unfolding conclude after_test is_rejected_request
dispatch peer (request, some contact) w = conclude peer request (some contact) w
dispatch peer (none, none) w = conclude peer none none w
dispatch peer (some request, none) w = (is_rejected_request request >>= after_test peer request) w

unfoldable pub take_arrival : Clock → Peer → Bytes → Arrival → M Progress
unfolding dispatch add_or_update_inbound_contact_request stripped_name stripped_message
take_arrival clock peer address (request_received name message) w =
    (add_or_update_inbound_contact_request clock address (stripped_name name)
          (stripped_message message)
        >>= dispatch peer)
      w
take_arrival clock peer address (process_ended true) w = done (returned true []) w
take_arrival clock peer address (process_ended false) w = done (returned true (close ∷ [])) w
take_arrival clock peer address timed_out w = done (returned peer.close_error (close ∷ [])) w

unfoldable pub begin : Clock → Peer → Arrival → M Progress
unfolding take_arrival address_from_plain_host
begin clock peer arrival w =
    let (address, ok) = address_from_plain_host peer.remote_hostname in
    if ok
    then take_arrival clock peer address arrival w
    else done (returned peer.close_error (close ∷ [])) w

unfoldable pub resume : Peer → ℕ → ℕ → Answer → M Progress
unfolding conclude clear_contact_result_channel
resume peer request channel (answered contact) w = conclude peer (some request) contact w
resume peer request channel channel_closed w = done (returned peer.close_error (close ∷ [])) w
resume peer request channel (process_over e) w =
    (clear_contact_result_channel request channel >> return (returned e [])) w
