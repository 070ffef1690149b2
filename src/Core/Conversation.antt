-- ===== src/Core/Conversation.antt =====
-- core/conversation.go: the messages exchanged with one contact.
-- A method returns the new conversation, the events that it publishes in order, and its result.
pub mod History
pub mod Events
pub mod Between
pub mod Sending
pub mod Marking
pub mod Tests
use ricochet_go.Common.{
  ℕ, zero, suc, ◌+◌, ◌%◌, ◌^◌, Bool, true, false, not, ◌&&◌, ◌||◌, Option, none, some, List, [],
  ◌∷◌, ◌++◌, Bytes, length, get_elem?, set, ltb, ◌==◌, if◌then◌else◌,
}
use ricochet_go.Rpc.{
  Entity, Message, MessageStatus, error, queued, sending, delivered, unread, read,
  ConversationEvent, ConversationEventType, receive, send, update, status_eq, entity_is_self,
}

pub record Conversation : Type 0 where
  pub local_entity : Entity
  pub remote_entity : Entity
  pub messages : List Message
  pub last_sent_message_id : ℕ  -- uint32

pub data Handler : Type 0 where
  chat other : Handler

-- What the protocol library answers in one call of `conn.Do`, and the clock: whether `Do` runs the
-- function that it is given, the handler of the open chat channel if there is one, the handler of a newly opened
-- channel (`none`: opening fails), and the identifier that `SendMessageWithTime` returns (uint32).
pub record Link : Type 0 where
  pub do_runs : Bool
  pub channel : Option Handler
  pub opened : Option Handler
  pub sent_id : ℕ
  pub now : ℕ

unfoldable pub new_conversation : Entity → Conversation
new_conversation remote_entity = record {
  local_entity = record { address = []; is_self = true };
  remote_entity = remote_entity;
  messages = [];
  last_sent_message_id = 0;
}

abbrev pub event : ConversationEventType → Message → ConversationEvent
event type message = record { type = type; msg = some message }

unfoldable pub receive_message :
    ℕ → ℕ → Bytes → Conversation → Conversation × List ConversationEvent
receive_message id timestamp text c =
    let message : Message = record {
      sender = some c.remote_entity;
      recipient = some c.local_entity;
      timestamp = timestamp;
      identifier = id;
      status = unread;
      text = text;
    } in
    (record c { messages = c.messages ++ message ∷ [] }, event receive message ∷ [])

-- The search of `UpdateSentStatus`, from the last message down: `n` messages are left to look at.
pub find_sending : ℕ → ℕ → List Message → Option (ℕ × Message)
find_sending id zero messages = none
find_sending id (suc i) messages = elim (get_elem? messages i) [
  | none ↦ none
  | some message ↦ elim (not (status_eq message.status sending) || not (message.identifier == id)) [
    | true ↦ find_sending id i messages
    | false ↦ some (i, message)
  ]
]

unfoldable pub update_sent_status : ℕ → Bool → Conversation → Conversation × List ConversationEvent
unfolding find_sending
update_sent_status id success c = elim (find_sending id (length c.messages) c.messages) [
  | none ↦ (c, [])
  | some (i, message) ↦
      let message' = record message { status = if success then delivered else error } in
      (record c { messages = set c.messages i message' }, event update message' ∷ [])
]

-- The channel that is open, or else the one that can be opened.
pub chat_handler : Link → Option Handler
chat_handler link = elim link.channel [ none ↦ link.opened | some h ↦ some h ]

-- The function that `sendMessageToConnection` hands to `conn.Do`; the flag says whether it returned an
-- error.
unfoldable pub send_on_channel : Link → Message → Message × Bool
unfolding chat_handler
send_on_channel link message = elim (chat_handler link) [
  | none ↦ (message, true)
  | some other ↦ (message, true)
  | some chat ↦ (
    record message {
      timestamp = if message.timestamp == 0 then link.now else message.timestamp;
      identifier = link.sent_id;
    },
    false,
  )
]

-- The message, whether a connection was there, and whether there was an error.
unfoldable pub send_message_to_connection : Option Link → Message → Message × Bool × Bool
unfolding send_on_channel
send_message_to_connection none message = (message, false, true)
send_message_to_connection (some link) message =
    let (message', failed) = send_on_channel link message in
    if link.do_runs then (message', true, failed) else (message, true, true)

-- `c.lastSentMessageId` after the two increments of `Send`; `random` is `rand.Uint32()`.
unfoldable pub next_message_id : ℕ → ℕ → ℕ
next_message_id random last =
    let seeded = if last == 0 then random % 2 ^ 32 else last in
    let incremented = (seeded + 1) % 2 ^ 32 in
    if incremented == 0 then (incremented + 1) % 2 ^ 32 else incremented

pub data SendError : Type 0 where
  text_is_empty text_is_too_long : SendError

pub data SendResult : Type 0 where
  sent : Message → SendResult
  refused : SendError → SendResult

abbrev pub status_after : Bool → Bool → MessageStatus
status_after connected failed = if failed then (if connected then error else queued) else sending

unfoldable pub send_text :
    Option Link → ℕ → ℕ → Bytes → Conversation → Conversation × List ConversationEvent × SendResult
unfolding send_message_to_connection next_message_id
send_text link random now text c =
    let id = next_message_id random c.last_sent_message_id in
    let message : Message = record {
      sender = some c.local_entity;
      recipient = some c.remote_entity;
      timestamp = now;
      identifier = id;
      status = queued;
      text = text;
    } in
    let (message', connected, failed) = send_message_to_connection link message in
    let message'' = record message' { status = status_after connected failed } in
    if length text == 0
    then (c, [], refused text_is_empty)
    else if ltb 2000 (length text)
    then (c, [], refused text_is_too_long)
    else (
      record c { messages = c.messages ++ message'' ∷ []; last_sent_message_id = id },
      event send message'' ∷ [],
      sent message'',
    )

-- One attempt of `SendQueuedMessages`, with what was tried, the messages behind it, and what the
-- loop makes of those if it goes on. Without a connection it stops.
pub after_attempt :
    Message × Bool × Bool
    → List Message
    → List Message × List ConversationEvent × ℕ
    → List Message × List ConversationEvent × ℕ
after_attempt (message, connected, failed) rest later =
    let message' = record message { status = status_after connected failed } in
    let (rest', events, n) = later in
    if failed && not connected
    then (message ∷ rest, [], 0)
    else (message' ∷ rest', event update message' ∷ events, if failed then n else n + 1)

-- The loop of `SendQueuedMessages`: `links k` is what the contact's connection is at the `k`-th
-- attempt. The result: the messages, the events, and the number sent.
pub send_queued : (ℕ → Option Link) → ℕ → List Message → List Message × List ConversationEvent × ℕ
unfolding send_message_to_connection after_attempt
send_queued links k [] = ([], [], 0)
send_queued links k (message ∷ rest) =
    let skipped = send_queued links k rest in
    let tried =
      after_attempt (send_message_to_connection (links k) message) rest
        (send_queued links (k + 1) rest) in
    if status_eq message.status queued then tried else (message ∷ skipped.0, skipped.1, skipped.2)

-- `connected` says whether `Contact.Connection()` is there at the start.
unfoldable pub send_queued_messages :
    Bool → (ℕ → Option Link) → Conversation → Conversation × List ConversationEvent × ℕ
unfolding send_queued
send_queued_messages connected links c =
    let (messages, events, n) = send_queued links 0 c.messages in
    if connected then (record c { messages = messages }, events, n) else (c, [], 0)

-- The loop of `MarkReadBeforeMessage`.
pub mark_read : ℕ → List Message → List Message × List ConversationEvent × ℕ
mark_read msg_id [] = ([], [], 0)
mark_read msg_id (message ∷ rest) =
    let was_unread = status_eq message.status unread in
    let message' = record message { status = if was_unread then read else message.status } in
    let (rest', events, n) = mark_read msg_id rest in
    let stop = message.identifier == msg_id && entity_is_self message.recipient in
    (
      message' ∷ (if stop then rest else rest'),
      (if was_unread then event update message' ∷ [] else []) ++ (if stop then [] else events),
      (if was_unread then 1 else 0) + (if stop then 0 else n),
    )

unfoldable pub mark_read_before_message :
    ℕ → Conversation → Conversation × List ConversationEvent × ℕ
unfolding mark_read
mark_read_before_message msg_id c =
    let (messages, events, n) = mark_read msg_id c.messages in
    (record c { messages = messages }, events, n)

-- The callbacks of the chat channel. A message id is a uint32.
unfoldable pub chat_message :
    ℕ → ℕ → Bytes → Conversation → Conversation × List ConversationEvent × Bool
unfolding receive_message
chat_message message_id when message c =
    let (c', events) = receive_message message_id when message c in (c', events, true)

unfoldable pub chat_message_ack : ℕ → Bool → Conversation → Conversation × List ConversationEvent
unfolding update_sent_status
chat_message_ack message_id accepted c = update_sent_status message_id accepted c
