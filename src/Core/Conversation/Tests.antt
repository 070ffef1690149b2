-- ===== src/Core/Conversation/Tests.antt =====
-- core/conversation.go on a conversation with a queued, a sent and an unread message.
use ricochet_go.Common.{
  ℕ, true, false, ◌≡◌, refl, none, some, List, [], ◌∷◌, codes, arith, ◌^◌, ◌<◌, ◌≢◌, ◌+◌, ◌-◌, ◌⊎◌,
  length, ◌++◌, map,
}
use ricochet_go.Rpc.{Entity, Message, MessageStatus, queued, sending, unread}
use ricochet_go.Core.Conversation.{
  Conversation, chat, Link, next_message_id, send_text, send_queued_messages,
  mark_read_before_message, update_sent_status,
}
use ricochet_go.Core.Conversation.History.{
  Operation, receives, acknowledged, sends, sends_queued, marks_read, run, Extends, run-Extends,
}
use ricochet_go.Core.Conversation.Sending.{
  count_status, Outcome, Flushed, next_message_id_fresh, send_text_outcome,
  send_queued_messages_counts, send_queued_messages_drains,
}
use ricochet_go.Core.Conversation.Marking.{
  Acknowledged, as_read, update_sent_status_newest, mark_read_before_message_prefix,
  mark_read_before_message_counts,
}

abbrev me : Entity
me = record { address = []; is_self = true }

abbrev peer : Entity
peer = record { address = codes "ricochet:abcdefghij234567"; is_self = false }

abbrev outbound : ℕ → MessageStatus → Message
outbound id status = record {
  sender = some me;
  recipient = some peer;
  timestamp = 5;
  identifier = id;
  status = status;
  text = codes "hi";
}

abbrev inbound : ℕ → Message
inbound id = record {
  sender = some peer;
  recipient = some me;
  timestamp = 6;
  identifier = id;
  status = unread;
  text = codes "hello";
}

abbrev talk : Conversation
talk = record {
  local_entity = me;
  remote_entity = peer;
  messages = outbound 1 sending ∷ inbound 7 ∷ outbound 2 queued ∷ inbound 8 ∷ [];
  last_sent_message_id = 2;
}

abbrev link : Link
link = record { do_runs = true; channel = none; opened = some chat; sent_id = 9; now = 20 }

abbrev history : List Operation
history =
    receives 3 4 (codes "hey")
    ∷ acknowledged 1 true
    ∷ sends none 5 6 (codes "yo")
    ∷ sends_queued true (λ k. some link)
    ∷ marks_read 8
    ∷ []

run-Extends_example : Extends talk (run talk history)
run-Extends_example = run-Extends talk history

next_message_id_fresh_example :
    let id = next_message_id 0 (2 ^ 32 - 1) in (0 < id) × (id < 2 ^ 32) × (id ≢ 2 ^ 32 - 1)
next_message_id_fresh_example = next_message_id_fresh 0 (2 ^ 32 - 1) (omega arith)

send_text_outcome_example :
    Outcome (some link) 5 (codes "yo") talk (send_text (some link) 5 6 (codes "yo") talk)
send_text_outcome_example = send_text_outcome (some link) 5 6 (codes "yo") talk

send_queued_messages_counts_example :
    let (c', events, n) = send_queued_messages true (λ k. some link) talk in
    Flushed talk.messages (c'.messages, events, n)
    × ((true ≡ true) ⊎ ((c' ≡ talk) × (events ≡ []) × (n ≡ 0)))
send_queued_messages_counts_example = send_queued_messages_counts true (λ k. some link) talk

send_queued_messages_drains_example :
    count_status queued (send_queued_messages true (λ k. some link) talk).0.messages ≡ 0
send_queued_messages_drains_example = send_queued_messages_drains (λ k. some link) talk (λ k. refl)

update_sent_status_newest_example : Acknowledged 1 true talk (update_sent_status 1 true talk)
update_sent_status_newest_example = update_sent_status_newest 1 true talk

mark_read_before_message_prefix_example :
    (mark_read_before_message 7 talk).0.messages
    ≡ map as_read (outbound 1 sending ∷ [])
      ++ as_read (inbound 7) ∷ outbound 2 queued ∷ inbound 8 ∷ []
mark_read_before_message_prefix_example =
    mark_read_before_message_prefix 7 talk (outbound 1 sending ∷ [])
      (outbound 2 queued ∷ inbound 8 ∷ []) (inbound 7) refl (refl, tt) refl

mark_read_before_message_counts_example :
    let (c', events, n) = mark_read_before_message 8 talk in
    (count_status unread c'.messages + n ≡ count_status unread talk.messages) × (length events ≡ n)
mark_read_before_message_counts_example = mark_read_before_message_counts 8 talk
