-- ===== src/Core/Conversation/Sending.antt =====
-- Sending messages: identifiers, statuses, and the queue (core/conversation.go).
use ricochet_go.Common.{
  ℕ, ◌+◌, ◌<◌, ◌≤◌, ◌^◌, ◌≡◌, ◌≢◌, ◌⊎◌, inl, inr, refl, Bool, true, false, if◌then◌else◌, ◌&&◌,
  ◌==◌, ltb, Option, none, some, List, [], ◌∷◌, ◌++◌, Bytes, length, arith, Bool-cases, is_some,
}
use mathlib.Core.List.{cons-ne-nil}
use ricochet_go.Rpc.{
  Message, MessageStatus, error, queued, sending, ConversationEvent, status_eq, status_eq→eq,
}
use ricochet_go.Core.Conversation.{
  Conversation, Link, Handler, chat, other, chat_handler, event, send_on_channel,
  send_message_to_connection, next_message_id, send_text, sent, refused, text_is_empty,
  text_is_too_long, status_after, after_attempt, send_queued, send_queued_messages, SendResult,
}
use ricochet_go.Rpc.{send}

abbrev pub count_status : MessageStatus → List Message → ℕ
count_status s [] = 0
count_status s (m ∷ ms) = (if status_eq m.status s then 1 else 0) + count_status s ms

-- A new message identifier is a nonzero uint32 and differs from the last one, which is a uint32,
-- whatever the random seed is, also where the counter wraps around.
pub next_message_id_fresh :
    (random last : ℕ)
    → last < 2 ^ 32
    → let id = next_message_id random last in (0 < id) × (id < 2 ^ 32) × (id ≢ last)
unfolding next_message_id
next_message_id_fresh random last h = ground arith

abbrev pub is_chat : Option Handler → Bool
is_chat none = false
is_chat (some chat) = true
is_chat (some other) = false

-- Whether the chat channel of the connection, found or newly opened, is a chat channel.
abbrev pub takes : Link → Bool
takes l = elim l.channel [ none ↦ is_chat l.opened | some h ↦ is_chat (some h) ]

-- The status that an attempt over this connection leads to.
abbrev pub expected_status : Option Link → MessageStatus
expected_status none = queued
expected_status (some l) = if l.do_runs && takes l then sending else error

-- The identifier that it leaves on the message: the one that the channel gave, or the message's own.
abbrev pub expected_identifier : Option Link → ℕ → ℕ
expected_identifier none id = id
expected_identifier (some l) id = if l.do_runs && takes l then l.sent_id else id

-- What a call leaves behind when it stores the message `m`, where `id` is the next identifier.
abbrev pub Accepted :
    Option Link
    → ℕ
    → Bytes
    → Conversation
    → Conversation
    → List ConversationEvent
    → Message
    → Type 0
Accepted link id text c c' events m =
    (c'.messages ≡ c.messages ++ m ∷ [])
    × (c'.last_sent_message_id ≡ id)
    × (events ≡ event send m ∷ [])
    × (m.text ≡ text)
    × (m.status ≡ expected_status link)
    × (m.identifier ≡ expected_identifier link id)

abbrev pub Refused : Conversation → Conversation → List ConversationEvent → Type 0
Refused c c' events = (c' ≡ c) × (events ≡ [])

abbrev pub Outcome :
    Option Link
    → ℕ
    → Bytes
    → Conversation
    → Conversation × List ConversationEvent × SendResult
    → Type 0
Outcome link random text c (c', events, refused text_is_empty) = (text ≡ []) × Refused c c' events
Outcome link random text c (c', events, refused text_is_too_long) =
    (2000 < length text) × Refused c c' events
Outcome link random text c (c', events, sent m) =
    (text ≢ [])
    × (length text ≤ 2000)
    × Accepted link (next_message_id random c.last_sent_message_id) text c c' events m

attempt_outcome :
    (link : Option Link) (m : Message)
    → let (m', connected, failed) = send_message_to_connection link m in
      (status_after connected failed ≡ expected_status link)
      × (m'.text ≡ m.text)
      × (m'.identifier ≡ expected_identifier link m.identifier)
unfolding send_message_to_connection send_on_channel chat_handler
attempt_outcome none m = (refl, refl, refl)
attempt_outcome (some k) m = (ground arith, ground arith, ground arith)

-- A text is accepted exactly if it has between 1 and 2000 bytes. A refused text changes nothing and publishes
-- nothing. An accepted one moves the conversation on to the identifier behind the last one; it is
-- stored behind the others and published once, as it is stored: queued exactly if there is no
-- connection, sending exactly if the connection took it on a chat channel, and then under the
-- identifier that the channel gave, else under the conversation's new identifier.
pub send_text_outcome :
    (link : Option Link) (random now : ℕ) (text : Bytes) (c : Conversation)
    → Outcome link random text c (send_text link random now text c)
unfolding send_text
send_text_outcome link random now [] c = (refl, (refl, refl))
send_text_outcome link random now (x ∷ text) c =
    let some_text : (length (x ∷ text) == 0) ≡ false = ground arith in
    elim (Bool-cases (ltb 2000 (length (x ∷ text)))) [
      | inl l ↦ rw (some_text, l) (ground arith, (refl, refl))
      | inr l ↦
          let fits : length (x ∷ text) ≤ 2000 = ground arith in
          let (status, same_text, id) = attempt_outcome link _ in
          rw (some_text, l) (cons-ne-nil x text, fits, (refl, refl, refl, same_text, status, id))
    ]

-- What a flush of the queue did: each event is a message that left the queue, and each message that
-- left it either was sent and counted or failed.
abbrev pub Flushed : List Message → List Message × List ConversationEvent × ℕ → Type 0
Flushed ms r =
    (count_status sending r.0 ≡ count_status sending ms + r.2)
    × (count_status queued r.0 + length r.1 ≡ count_status queued ms)
    × (r.2 ≤ length r.1)

after_attempt-Flushed :
    (link : Option Link) (m : Message) (ms : List Message)
    (later : List Message × List ConversationEvent × ℕ)
    → m.status ≡ queued
    → Flushed ms later
    → Flushed (m ∷ ms) (after_attempt (send_message_to_connection link m) ms later)
unfolding after_attempt send_message_to_connection send_on_channel chat_handler
after_attempt-Flushed link m ms later h f = ground arith

-- One round of the loop.
send_queued_try :
    (links : ℕ → Option Link) (k : ℕ) (m : Message) (ms : List Message)
    → status_eq m.status queued ≡ true
    → send_queued links k (m ∷ ms)
      ≡ after_attempt (send_message_to_connection (links k) m) ms (send_queued links (k + 1) ms)
unfolding send_queued
send_queued_try links k m ms e = rw e

send_queued_skip :
    (links : ℕ → Option Link) (k : ℕ) (m : Message) (ms : List Message)
    → status_eq m.status queued ≡ false
    → let r = send_queued links k ms in send_queued links k (m ∷ ms) ≡ (m ∷ r.0, r.1, r.2)
unfolding send_queued
send_queued_skip links k m ms e = rw e

skip-Flushed :
    (m : Message) (ms : List Message) (r : List Message × List ConversationEvent × ℕ)
    → Flushed ms r
    → Flushed (m ∷ ms) (m ∷ r.0, r.1, r.2)
skip-Flushed m ms r f = (omega arith, omega arith, f.2)

send_queued-Flushed :
    (links : ℕ → Option Link) (k : ℕ) (ms : List Message) → Flushed ms (send_queued links k ms)
send_queued-Flushed links k [] = unfold send_queued in (omega arith, omega arith, omega arith)
send_queued-Flushed links k (m ∷ ms) = elim (Bool-cases (status_eq m.status queued)) [
  | inl e ↦ rw (send_queued_try links k m ms e) (
      after_attempt-Flushed (links k) m ms _ (status_eq→eq m.status queued e)
        (send_queued-Flushed links (k + 1) ms))
  | inr e ↦
      rw (send_queued_skip links k m ms e) (skip-Flushed m ms _ (send_queued-Flushed links k ms))
]

after_attempt-drained :
    (link : Option Link) (m : Message) (ms : List Message)
    (later : List Message × List ConversationEvent × ℕ)
    → is_some link ≡ true
    → count_status queued later.0 ≡ 0
    → count_status queued (after_attempt (send_message_to_connection link m) ms later).0 ≡ 0
unfolding after_attempt send_message_to_connection send_on_channel chat_handler
after_attempt-drained none m ms later there h = cc
after_attempt-drained (some l) m ms later there h = ground arith

send_queued-drained :
    (links : ℕ → Option Link) (k : ℕ) (ms : List Message)
    → ((j : ℕ) → is_some (links j) ≡ true)
    → count_status queued (send_queued links k ms).0 ≡ 0
send_queued-drained links k [] h = unfold send_queued in refl
send_queued-drained links k (m ∷ ms) h = elim (Bool-cases (status_eq m.status queued)) [
  | inl e ↦
      rw (send_queued_try links k m ms e)
        (after_attempt-drained (links k) m ms _ (h k) (send_queued-drained links (k + 1) ms h))
  | inr e ↦
      rw (send_queued_skip links k m ms e) (ground (arith, e, send_queued-drained links k ms h))
]

-- Flushing the queue, with whatever connections: the number returned is by how much the messages
-- being sent grew, there is one event for each message that left the queue, and without a connection at the start
-- nothing happens at all.
pub send_queued_messages_counts :
    (connected : Bool) (links : ℕ → Option Link) (c : Conversation)
    → let (c', events, n) = send_queued_messages connected links c in
      Flushed c.messages (c'.messages, events, n)
      × ((connected ≡ true) ⊎ ((c' ≡ c) × (events ≡ []) × (n ≡ 0)))
unfolding send_queued_messages
send_queued_messages_counts true links c = (send_queued-Flushed links 0 c.messages, inl refl)
send_queued_messages_counts false links c =
    ((omega arith, omega arith, omega arith), inr (refl, refl, refl))

-- If the contact stays connected throughout, no message is left in the queue.
pub send_queued_messages_drains :
    (links : ℕ → Option Link) (c : Conversation)
    → ((k : ℕ) → is_some (links k) ≡ true)
    → count_status queued (send_queued_messages true links c).0.messages ≡ 0
unfolding send_queued_messages
send_queued_messages_drains links c h = send_queued-drained links 0 c.messages h
