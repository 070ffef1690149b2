-- ===== src/Core/RpcServer.antt =====
-- core/rpcserver.go: the handlers of the frontend API, on the contact list and the conversations.
-- A handler is one step, made of the calls that it makes. The two channels of a stream are what the
-- publisher delivers and which of the `Send`s succeed.
use ricochet_go.Common.{
  ℕ, suc, Bool, true, false, not, ltb, length, Option, none, some, List, [], ◌∷◌, ◌++◌, map, codes,
  Bytes, Dict, lookup, ◌==◌, if◌then◌else◌,
}
use ricochet_go.Common.Exec.{done, ◌>>=◌, return}
use ricochet_go.Rpc.{
  Entity, Message, ContactData, ContactRequest, ContactEvent, ContactEventType, ContactSubject,
  ConversationEvent, ConversationEventType, Direction, NetworkStatus,
}
use ricochet_go.Core.Contact.{Clock}
use ricochet_go.Core.Conversation.{
  Conversation, new_conversation, Link, SendError, SendResult, sent, refused, send_text,
  mark_read_before_message,
}
use ricochet_go.Core.ContactList.{World, M, AddError, AddResult, added, remove_contact, update_at}
use ricochet_go.Core.ContactList.{refused as add_refused}
use ricochet_go.Core.InboundRequest.{set_nickname, accept, reject}
use ricochet_go.Core.Requests.{add_contact_request}

pub data RpcError : Type 0 where
  unsupported_version not_outbound not_inbound not_implemented contact_not_found not_listed
        request_missing invalid_sender invalid_recipient unknown_recipient invalid_entity
        unknown_entity :
      RpcError
  add_error : AddError → RpcError
  send_error : SendError → RpcError

pub data Reply (A : Type 0) : Type 0 where
  ok : A → Reply A
  err : RpcError → Reply A

pub record ServerStatusReply : Type 0 where
  pub rpc_version : ℕ
  pub server_version : Bytes

unfoldable pub get_server_status : ℕ → Reply ServerStatusReply
get_server_status rpc_version =
    if not (rpc_version == 1)
    then err unsupported_version
    else ok (record { rpc_version = 1; server_version = codes "0.0.0" })

-- The events that reach the frontend: up to the first `Send` that fails, which ends the handler.
unfoldable pub send_all : {A : Type 0} → (ℕ → Bool) → ℕ → List A → List A
send_all sends k [] = []
send_all sends k (event ∷ events) =
    let rest = send_all sends (suc k) events in if sends k then event ∷ rest else []

-- `later` is what the subscription delivers until its channel is closed.
unfoldable pub monitor_network :
    (ℕ → Bool) → NetworkStatus → List NetworkStatus → List NetworkStatus
unfolding send_all
monitor_network sends status later = send_all sends 0 (status ∷ later)

abbrev pub populate_contact : ContactData → ContactEvent
populate_contact d = record {
  type = ContactEventType.populate;
  subject = some (ContactSubject.contact d);
}

-- `Contacts`, with each contact's `Data`.
unfoldable pub contact_data_list : World → Dict ℕ → List ContactData
contact_data_list w [] = []
contact_data_list w ((a, id) ∷ rest) = (w.contact_at id).contact_data ∷ contact_data_list w rest

unfoldable pub contact_population : World → List ContactEvent
unfolding contact_data_list
contact_population w =
    map populate_contact (contact_data_list w w.contacts)
    ++ record { type = ContactEventType.populate; subject = none } ∷ []

unfoldable pub monitor_contacts : (ℕ → Bool) → World → List ContactEvent → List ContactEvent
unfolding send_all contact_population
monitor_contacts sends w later = send_all sends 0 (contact_population w ++ later)

-- `conversation_at` is the contact's field `conversation`, and `stream` what has been published
-- to `ConversationStream`.
pub record Server : Type 0 where
  pub world : World
  pub conversation_at : ℕ → Option Conversation
  pub stream : List ConversationEvent

-- `Contact.Conversation`, which makes the conversation when it is first asked for. A new one is empty,
-- so that a stream which only reads it is not said to store it.
unfoldable pub conversation : ℕ → Server → Conversation
unfolding new_conversation
conversation id s = elim (s.conversation_at id) [
  | none ↦
      new_conversation
        (record { address = (s.world.contact_at id).contact_data.address; is_self = false })
  | some c ↦ c
]

abbrev pub populate_message : Message → ConversationEvent
populate_message m = record { type = ConversationEventType.populate; msg = some m }

unfoldable pub message_population : Server → Dict ℕ → List ConversationEvent
unfolding conversation
message_population s [] = record { type = ConversationEventType.populate; msg = none } ∷ []
message_population s ((a, id) ∷ rest) =
    map populate_message (conversation id s).messages ++ message_population s rest

unfoldable pub monitor_conversations :
    (ℕ → Bool) → Server → List ConversationEvent → List ConversationEvent
unfolding send_all message_population
monitor_conversations sends s later =
    send_all sends 0 (message_population s s.world.contacts ++ later)

abbrev pub is_outbound : Direction → Bool
is_outbound Direction.outbound = true
is_outbound Direction.inbound = false

unfoldable pub add_reply : AddResult → M (Reply ContactData)
add_reply (added id) w = done (ok (w.contact_at id).contact_data) w
add_reply (add_refused e) w = done (err (add_error e)) w

unfoldable pub rpc_add_contact_request : Clock → ContactRequest → M (Reply ContactData)
unfolding add_contact_request add_reply
rpc_add_contact_request clock req w =
    if not (is_outbound req.direction)
    then done (err not_outbound) w
    else (add_contact_request clock req.address req.nickname req.from_nickname req.text
          >>= add_reply)
        w

unfoldable pub rpc_update_contact : ContactData → M (Reply ContactData)
rpc_update_contact d w = done (err not_implemented) w

unfoldable pub delete_reply : Bool → M (Reply (Unit {0}))
delete_reply failed w = done (if failed then err not_listed else ok tt) w

unfoldable pub rpc_delete_contact : Bytes → M (Reply (Unit {0}))
unfolding remove_contact delete_reply
rpc_delete_contact address w = elim (lookup address w.contacts) [
  | none ↦ done (err contact_not_found) w
  | some id ↦ (remove_contact id >>= delete_reply) w
]

unfoldable pub accept_reply : AddResult × Option AddError → M (Reply ContactData)
accept_reply (added id, none) w = done (ok (w.contact_at id).contact_data) w
accept_reply (add_refused e, none) w = done (err (add_error e)) w
accept_reply (result, some e) w = done (err (add_error e)) w

unfoldable pub accept_named : ℕ → Option AddError → M (Reply ContactData)
unfolding accept accept_reply
accept_named id none = accept id >>= accept_reply
accept_named id (some e) = return (err (add_error e))

-- `SetNickname`, if the call brings a name.
unfoldable pub rename_request : ℕ → Bytes → M (Option AddError)
unfolding set_nickname
rename_request id name w = if ltb 0 (length name) then set_nickname id name w else done none w

unfoldable pub rpc_accept_inbound_request : ContactRequest → M (Reply ContactData)
unfolding rename_request accept_named
rpc_accept_inbound_request req w =
    if is_outbound req.direction
    then done (err not_inbound) w
    else elim (lookup req.address w.requests) [
      | none ↦ done (err request_missing) w
      | some id ↦ (rename_request id req.from_nickname >>= accept_named id) w
    ]

unfoldable pub rpc_reject_inbound_request : ContactRequest → M (Reply (Unit {0}))
unfolding reject
rpc_reject_inbound_request req w =
    if is_outbound req.direction
    then done (err not_inbound) w
    else elim (lookup req.address w.requests) [
      | none ↦ done (err request_missing) w
      | some id ↦ (reject id >>= λ _ w'. done (ok tt) w') w
    ]

-- A conversation of the server moves on.
abbrev pub put_conversation : ℕ → Conversation → List ConversationEvent → Server → Server
put_conversation id c events s = record s {
  conversation_at = update_at id (some c) s.conversation_at;
  stream = s.stream ++ events;
}

send_reply : SendResult → Reply Message
send_reply (sent m) = ok m
send_reply (refused e) = err (send_error e)

-- The contact's connection, `rand.Uint32()` and the clock are what `Conversation.Send` finds.
unfoldable pub send_to_contact :
    (ℕ → Option Link) → ℕ → ℕ → Bytes → Bytes → Server → Server × Reply Message
unfolding conversation send_text send_reply
send_to_contact links random now address text s = elim (lookup address s.world.contacts) [
  | none ↦ (s, err unknown_recipient)
  | some id ↦
      let (c, events, result) = send_text (links id) random now text (conversation id s) in
      (put_conversation id c events s, send_reply result)
]

unfoldable pub rpc_send_message :
    (ℕ → Option Link) → ℕ → ℕ → Message → Server → Server × Reply Message
unfolding send_to_contact
rpc_send_message links random now req s = elim req.sender [
  | none ↦ (s, err invalid_sender)
  | some sender ↦ elim req.recipient [
    | none ↦ (s, err (if not sender.is_self then invalid_sender else invalid_recipient))
    | some recipient ↦
        if not sender.is_self
        then (s, err invalid_sender)
        else if recipient.is_self
        then (s, err invalid_recipient)
        else send_to_contact links random now recipient.address req.text s
  ]
]

unfoldable pub mark_contact_read : ℕ → Bytes → Server → Server × Reply (Unit {0})
unfolding conversation mark_read_before_message
mark_contact_read last_recv_identifier address s = elim (lookup address s.world.contacts) [
  | none ↦ (s, err unknown_entity)
  | some id ↦
      let (c, events, _) = mark_read_before_message last_recv_identifier (conversation id s) in
      (put_conversation id c events s, ok tt)
]

unfoldable pub rpc_mark_conversation_read : Option Entity → ℕ → Server → Server × Reply (Unit {0})
unfolding mark_contact_read
rpc_mark_conversation_read none last_recv_identifier s = (s, err invalid_entity)
rpc_mark_conversation_read (some entity) last_recv_identifier s =
    if entity.is_self
    then (s, err invalid_entity)
    else mark_contact_read last_recv_identifier entity.address s
