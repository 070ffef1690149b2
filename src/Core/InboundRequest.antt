-- ===== src/Core/InboundRequest.antt =====
-- core/inboundcontactrequest.go: a contact request that a peer has made.
use ricochet_go.Common.{
  ℕ, suc, Bool, true, false, ◌||◌, Option, none, some, List, [], ◌∷◌, ◌++◌, Bytes, bytes_eq, length,
  ◌==◌, if◌then◌else◌,
}
use ricochet_go.Common.Exec.{done, deadlock, ◌>>=◌, ◌>>◌, return}
use ricochet_go.Rpc.{ContactData, ContactRequest, ContactStatus, Direction}
use ricochet_go.Core.Sanitize.{is_nickname_acceptable, is_message_acceptable}
use ricochet_go.Core.ContactList.{
  InboundRequest, World, M, Effect, send_result, close_channel, update_at, AddError, AddResult,
  taking, added, refused, already_rejected, address_differs, invalid_nickname, add_new_contact,
  is_listed, inbound_request_changed, remove_inbound_contact_request,
}

-- `when` is the time of creation as text.
unfoldable pub create_inbound_contact_request : Bytes → Bytes → Bytes → Bytes → InboundRequest
create_inbound_contact_request when address nickname message = record {
  request_data = record {
    direction = Direction.inbound;
    address = address;
    nickname = [];
    text = message;
    from_nickname = nickname;
    when_created = when;
    rejected = false;
    when_delivered = [];
    when_rejected = [];
    remote_error = [];
  };
  result_channel = none;
  notifies = false;
}

unfoldable pub store : ℕ → InboundRequest → World → World
store id r w = record w { request_at = update_at id r w.request_at }

abbrev pub closing : Option ℕ → List Effect
closing none = []
closing (some channel) = close_channel channel ∷ []

-- The result is the new channel; the one before is closed.
unfoldable pub get_contact_result_channel : ℕ → M ℕ
unfolding store
get_contact_result_channel id w =
    let r = w.request_at id in
    taking (w.request_locked id) w (
      done w.channels (
        store id (record r { result_channel = some w.channels })
          (record w { channels = suc w.channels; trace = w.trace ++ closing r.result_channel })))

unfoldable pub without_channel : ℕ → World → World
unfolding store
without_channel id w =
    let r = w.request_at id in
    store id (record r { result_channel = none })
      (record w { trace = w.trace ++ closing r.result_channel })

unfoldable pub close_connection : ℕ → M (Unit {0})
unfolding without_channel
close_connection id w = taking (w.request_locked id) w (done tt (without_channel id w))

unfoldable pub clear_contact_result_channel : ℕ → ℕ → M (Unit {0})
unfolding without_channel
clear_contact_result_channel id channel w = taking (w.request_locked id) w (
    done tt
      (if is_listed channel (w.request_at id).result_channel then without_channel id w else w))

-- The request after `Update`, which the rejection and bad texts keep as it is.
unfoldable pub updated : Bytes → Bytes → InboundRequest → InboundRequest
unfolding is_nickname_acceptable is_message_acceptable
updated nickname message r =
    let d = r.request_data in
    record r {
      request_data = record d {
        from_nickname =
            if length nickname == 0 || is_nickname_acceptable nickname
            then nickname
            else d.from_nickname;
        text = if length message == 0 || is_message_acceptable message then message else d.text;
      };
    }

unfoldable pub update : ℕ → Bytes → Bytes → M (Unit {0})
unfolding store updated inbound_request_changed
update id nickname message w =
    let r = updated nickname message (w.request_at id) in
    taking (w.request_locked id) w (
      done tt (
        if (w.request_at id).request_data.rejected
        then w
        else store id r (record w { trace = w.trace ++ inbound_request_changed r })))

-- `none` is a nil error.
unfoldable pub set_nickname : ℕ → Bytes → M (Option AddError)
unfolding store is_nickname_acceptable
set_nickname id nickname w =
    let r = w.request_at id in
    taking (w.request_locked id) w (
      if is_nickname_acceptable nickname
      then done none (
          store id
            (record r { request_data = record (r.request_data) { from_nickname = nickname } }) w)
      else done (some invalid_nickname) w)

-- Sending the outcome to the active connection, if there is one, and closing the channel. The channel
-- has no buffer: without a receiver the send blocks. It blocks for ever, since a connection that has left
-- its `select` does not receive again before it has taken the mutex of the request. `signal` is called with
-- that mutex held, and so it is in the state that it blocks in.
unfoldable pub signal : ℕ → Option ℕ → M (Unit {0})
unfolding store
signal id result w = elim (w.request_at id).result_channel [
  | none ↦ done tt w
  | some channel ↦
      if w.listens channel
      then done tt (
          store id (record (w.request_at id) { result_channel = none })
            (record w {
              trace = w.trace ++ send_result channel result ∷ close_channel channel ∷ [];
            }))
      else deadlock (record w { request_locked = update_at id true w.request_locked })
]

-- `acceptWithContact`, which is called with the mutex of the request held.
unfoldable pub accept_held : ℕ → ℕ → M (Option AddError)
unfolding signal remove_inbound_contact_request
accept_held id contact w = taking (w.contact_at contact).locked w (
    if bytes_eq (w.contact_at contact).contact_data.address (w.request_at id).request_data.address
    then (signal id (some contact) >> remove_inbound_contact_request id >> return none) w
    else done (some address_differs) w)

unfoldable pub accept_with_contact : ℕ → ℕ → M (Option AddError)
unfolding accept_held
accept_with_contact id contact w = taking (w.request_locked id) w (accept_held id contact w)

abbrev pub accepted_data : ContactRequest → ContactData
accepted_data r = record {
  address = r.address;
  nickname = r.from_nickname;
  when_created = r.when_created;
  last_connected = [];
  request = none;
  status = ContactStatus.unknown;
}

-- What `Accept` does with the result of `AddNewContact`.
unfoldable pub finish_accept : ℕ → AddResult → M (AddResult × Option AddError)
unfolding accept_held
finish_accept id (refused e) = return (refused e, some e)
finish_accept id (added contact) = accept_held id contact >>= λ e. return (added contact, e)

unfoldable pub accept : ℕ → M (AddResult × Option AddError)
unfolding add_new_contact finish_accept
accept id w =
    let r = (w.request_at id).request_data in
    taking (w.request_locked id) w (
      if r.rejected
      then done (refused already_rejected, some already_rejected) w
      else (add_new_contact (accepted_data r) >>= finish_accept id) w)

abbrev pub as_rejected : InboundRequest → InboundRequest
as_rejected r = record r { request_data = record (r.request_data) { rejected = true } }

unfoldable pub announce : ℕ → M (Unit {0})
unfolding inbound_request_changed
announce id w = done tt (record w { trace = w.trace ++ inbound_request_changed (w.request_at id) })

unfoldable pub reject : ℕ → M (Unit {0})
unfolding store signal announce remove_inbound_contact_request
reject id w = taking (w.request_locked id) w (
    if (w.request_at id).request_data.rejected
    then done tt w
    else (signal id none >> announce id >> remove_inbound_contact_request id >> return tt)
        (store id (as_rejected (w.request_at id)) w))

unfoldable pub is_rejected_request : ℕ → M Bool
is_rejected_request id w =
    taking (w.request_locked id) w (done (w.request_at id).request_data.rejected w)
