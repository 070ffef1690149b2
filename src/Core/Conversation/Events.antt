-- ===== src/Core/Conversation/Events.antt =====
-- The events that the operations of core/conversation.go publish.
use ricochet_go.Common.{
  ℕ, ◌+◌, ◌==◌, ◌&&◌, not, ltb, ◌≡◌, inl, inr, refl, Bool, true, false, if◌then◌else◌, Option, List,
  [], ◌∷◌, ◌++◌, length, All, All-append, arith, Bool-cases, Option-cases,
}
use ricochet_go.Rpc.{
  Message, queued, unread, read, ConversationEvent, status_eq, entity_is_self, is_quiet_event,
  update,
}
use ricochet_go.Core.Conversation.{
  after_attempt, event, Conversation, Link, receive_message, find_sending, update_sent_status,
  send_message_to_connection, send_text, status_after, send_queued, send_queued_messages, mark_read,
  mark_read_before_message,
}
use ricochet_go.Core.Conversation.History.{
  Operation, receives, acknowledged, sends, sends_queued, marks_read, step,
}

unfoldable pub published : Conversation → Operation → List ConversationEvent
published c (receives id timestamp text) = (receive_message id timestamp text c).1
published c (acknowledged id success) = (update_sent_status id success c).1
published c (sends link random now text) = (send_text link random now text c).1
published c (sends_queued connected links) = (send_queued_messages connected links c).1
published c (marks_read id) = (mark_read_before_message id c).1

unfoldable pub published_by : Conversation → List Operation → List ConversationEvent
unfolding published
published_by c [] = []
published_by c (o ∷ os) = published c o ++ published_by (step c o) os

abbrev pub AreQuiet : List ConversationEvent → Type 0
AreQuiet = All (λ e. is_quiet_event e ≡ true)

either_quiet :
    (b : Bool) (xs ys : List ConversationEvent)
    → AreQuiet xs
    → AreQuiet ys
    → AreQuiet (if b then xs else ys)
either_quiet true xs ys h k = h
either_quiet false xs ys h k = k

status_after_quiet :
    (connected failed : Bool) (m : Message)
    → is_quiet_event (event update (record m { status = status_after connected failed })) ≡ true
status_after_quiet connected failed m = ground arith

send_queued_quiet :
    (links : ℕ → Option Link) (k : ℕ) (ms : List Message) → AreQuiet (send_queued links k ms).1
unfolding send_queued after_attempt
send_queued_quiet links k [] = tt
send_queued_quiet links k (m ∷ ms) = elim (Bool-cases (status_eq m.status queued)) [
  | inr e ↦ rw e (send_queued_quiet links k ms)
  | inl e ↦
      let (m', connected, failed) = send_message_to_connection (links k) m in
      rw e (elim (Bool-cases (failed && not connected)) [
        | inl stops ↦ rw stops tt
        | inr goes_on ↦
            rw goes_on (status_after_quiet connected failed m', send_queued_quiet links (k + 1) ms)
      ])
]

read_quiet :
    (m : Message)
    → AreQuiet (
        if status_eq m.status unread
        then event update
            (record m { status = if status_eq m.status unread then read else m.status })
          ∷ []
        else [])
read_quiet m = elim (Bool-cases (status_eq m.status unread)) [
  | inl e ↦ rw e (refl, tt)
  | inr e ↦ rw e tt
]

mark_read_quiet : (id : ℕ) (ms : List Message) → AreQuiet (mark_read id ms).1
unfolding mark_read
mark_read_quiet id [] = tt
mark_read_quiet id (m ∷ ms) =
    All-append (λ e. is_quiet_event e ≡ true) _ _ (read_quiet m)
      (either_quiet (m.identifier == id && entity_is_self m.recipient) [] (mark_read id ms).1 tt
        (mark_read_quiet id ms))

update_sent_status_quiet :
    (id : ℕ) (success : Bool) (c : Conversation) → AreQuiet (update_sent_status id success c).1
unfolding update_sent_status
update_sent_status_quiet id success c =
    elim (Option-cases (find_sending id (length c.messages) c.messages)) [
      | inl e ↦ rw (e, update_sent_status) tt
      | inr ((i, m), e) ↦
          rw (e, update_sent_status)
            (elim (Bool-cases success) [ inl s ↦ rw s (refl, tt) | inr f ↦ rw f (refl, tt) ])
    ]

send_text_quiet :
    (link : Option Link) (random now : ℕ) (text : List ℕ) (c : Conversation)
    → AreQuiet (send_text link random now text c).1
unfolding send_text
send_text_quiet link random now text c = elim (Bool-cases (length text == 0)) [
  | inl e ↦ rw e tt
  | inr e ↦ elim (Bool-cases (ltb 2000 (length text))) [
    | inl l ↦ rw (e, l) tt
    | inr l ↦ rw (e, l) (refl, tt)
  ]
]

published-AreQuiet : (c : Conversation) (o : Operation) → AreQuiet (published c o)
unfolding published
published-AreQuiet c (receives id timestamp text) = unfold receive_message in (refl, tt)
published-AreQuiet c (acknowledged id success) = update_sent_status_quiet id success c
published-AreQuiet c (sends link random now text) = send_text_quiet link random now text c
published-AreQuiet c (sends_queued true links) =
    unfold send_queued_messages in send_queued_quiet links 0 c.messages
published-AreQuiet c (sends_queued false links) = unfold send_queued_messages in tt
published-AreQuiet c (marks_read id) =
    unfold mark_read_before_message in mark_read_quiet id c.messages

-- No event that a conversation publishes tells of a message that has become unread.
pub published_by-AreQuiet : (c : Conversation) (os : List Operation) → AreQuiet (published_by c os)
unfolding published_by
published_by-AreQuiet c [] = tt
published_by-AreQuiet c (o ∷ os) =
    All-append (λ e. is_quiet_event e ≡ true) _ _ (published-AreQuiet c o)
      (published_by-AreQuiet (step c o) os)
