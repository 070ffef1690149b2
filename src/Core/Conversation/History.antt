-- ===== src/Core/Conversation/History.antt =====
-- What the operations of core/conversation.go may do to the messages of a conversation.
use ricochet_go.Common.{
  ℕ, zero, suc, ◌+◌, ◌==◌, ◌&&◌, not, ltb, Pointwise-split, ◌≡◌, ◌⊎◌, inl, inr, refl, sym, ap, ◌∙◌,
  Bool, true, false, if◌then◌else◌, Option, some, List, [], ◌∷◌, ◌++◌, append_assoc, append-nil,
  Bytes, get_elem?, length, Pointwise, Pointwise-refl, Pointwise-trans, set-Pointwise, Grows, arith,
  Bool-cases, Option-cases,
}
use ricochet_go.Rpc.{
  Message, MessageStatus, null, error, queued, sending, delivered, unread, read, ConversationEvent,
  status_eq, status_eq→eq, entity_is_self,
}
use ricochet_go.Core.Conversation.{
  after_attempt, Conversation, Link, receive_message, find_sending, update_sent_status,
  send_message_to_connection, send_text, status_after, send_queued, send_queued_messages, mark_read,
  mark_read_before_message,
}

-- How the status of a message may develop: an outbound message is sent and then acknowledged or
-- failed, an inbound one is read.
abbrev pub may_become : MessageStatus → MessageStatus → Bool
may_become queued queued = true
may_become queued sending = true
may_become queued delivered = true
may_become queued error = true
may_become sending sending = true
may_become sending delivered = true
may_become sending error = true
may_become delivered delivered = true
may_become error error = true
may_become unread unread = true
may_become unread read = true
may_become read read = true
may_become null null = true
may_become _ _ = false

-- One message, later: its ends and its text are the same, and its identifier is, unless it was
-- waiting to be sent.
pub record Follows (m m' : Message) : Type 0 where
  pub same_sender : m'.sender ≡ m.sender
  pub same_recipient : m'.recipient ≡ m.recipient
  pub same_text : m'.text ≡ m.text
  pub status : may_become m.status m'.status ≡ true
  pub identifier : (m'.identifier ≡ m.identifier) ⊎ (m.status ≡ queued)

may_become_refl : (s : MessageStatus) → may_become s s ≡ true
may_become_refl s = ground arith

may_become_trans :
    (a b c : MessageStatus) → may_become a b ≡ true → may_become b c ≡ true → may_become a c ≡ true
may_become_trans a b c h k = ground arith

may_become_queued : (a : MessageStatus) → may_become a queued ≡ true → a ≡ queued
may_become_queued a h = ground arith

pub Follows-refl : (m : Message) → Follows m m
Follows-refl m = record {
  same_sender = refl;
  same_recipient = refl;
  same_text = refl;
  status = may_become_refl m.status;
  identifier = inl refl;
}

pub Follows-trans : (a b c : Message) → Follows a b → Follows b c → Follows a c
Follows-trans a b c h k = record {
  same_sender = k.same_sender ∙ h.same_sender;
  same_recipient = k.same_recipient ∙ h.same_recipient;
  same_text = k.same_text ∙ h.same_text;
  status = may_become_trans a.status b.status c.status h.status k.status;
  identifier = later_identifier h.identifier k.identifier;
}
  where
    later_identifier :
        (b.identifier ≡ a.identifier) ⊎ (a.status ≡ queued)
        → (c.identifier ≡ b.identifier) ⊎ (b.status ≡ queued)
        → (c.identifier ≡ a.identifier) ⊎ (a.status ≡ queued)
    later_identifier (inr q) _ = inr q
    later_identifier (inl e) (inl e') = inl (e' ∙ e)
    later_identifier (inl e) (inr q) =
        inr (may_become_queued a.status (ap (may_become a.status) (sym q) ∙ h.status))

-- What happens to a conversation: the calls of its methods, with what the environment answers.
pub data Operation : Type 0 where
  receives : ℕ → ℕ → Bytes → Operation
  acknowledged : ℕ → Bool → Operation
  sends : Option Link → ℕ → ℕ → Bytes → Operation
  sends_queued : Bool → (ℕ → Option Link) → Operation
  marks_read : ℕ → Operation

unfoldable pub step : Conversation → Operation → Conversation
step c (receives id timestamp text) = (receive_message id timestamp text c).0
step c (acknowledged id success) = (update_sent_status id success c).0
step c (sends link random now text) = (send_text link random now text c).0
step c (sends_queued connected links) = (send_queued_messages connected links c).0
step c (marks_read id) = (mark_read_before_message id c).0

unfoldable pub run : Conversation → List Operation → Conversation
unfolding step
run c [] = c
run c (o ∷ os) = run (step c o) os

abbrev pub Extends : Conversation → Conversation → Type 0
Extends c c' = Grows Follows c.messages c'.messages

Extends-same : (ms ms' : List Message) → Pointwise Follows ms ms' → Grows Follows ms ms'
Extends-same ms ms' h = (ms', [], sym (append-nil ms'), h)

Extends-add : (ms : List Message) (m : Message) → Grows Follows ms (ms ++ m ∷ [])
Extends-add ms m = (ms, m ∷ [], refl, Pointwise-refl Follows Follows-refl ms)

find_sending_at :
    (id n : ℕ) (ms : List Message) (i : ℕ) (m : Message)
    → find_sending id n ms ≡ some (i, m)
    → (get_elem? ms i ≡ some m) × (m.status ≡ sending) × (m.identifier ≡ id)
unfolding find_sending
find_sending_at id zero ms i m h = cc
find_sending_at id (suc n) ms i m h = ground (arith, find_sending_at id n ms i m)

Follows-ack :
    (m : Message) (success : Bool)
    → m.status ≡ sending
    → Follows m (record m { status = if success then delivered else error })
Follows-ack m success h = record {
  same_sender = refl;
  same_recipient = refl;
  same_text = refl;
  status = ground arith;
  identifier = inl refl;
}

Follows-sent :
    (link : Option Link) (m : Message)
    → m.status ≡ queued
    → let (m', connected, failed) = send_message_to_connection link m in
      Follows m m' × Follows m (record m' { status = status_after connected failed })
unfolding send_message_to_connection
Follows-sent link m h = ground arith

after_attempt-Pointwise :
    (link : Option Link) (m : Message) (ms : List Message)
    (later : List Message × List ConversationEvent × ℕ)
    → m.status ≡ queued
    → Pointwise Follows ms later.0
    → Pointwise Follows (m ∷ ms) (after_attempt (send_message_to_connection link m) ms later).0
unfolding after_attempt
after_attempt-Pointwise link m ms later h p =
    let (kept, changed) = Follows-sent link m h in
    let (m', connected, failed) = send_message_to_connection link m in
    elim (Bool-cases (failed && not connected)) [
      | inl e ↦ rw e (kept, Pointwise-refl Follows Follows-refl ms)
      | inr e ↦ rw e (changed, p)
    ]

pub send_queued-Pointwise :
    (links : ℕ → Option Link) (k : ℕ) (ms : List Message)
    → Pointwise Follows ms (send_queued links k ms).0
unfolding send_queued
send_queued-Pointwise links k [] = tt
send_queued-Pointwise links k (m ∷ ms) = elim (Bool-cases (status_eq m.status queued)) [
  | inl e ↦ rw e (
      after_attempt-Pointwise (links k) m ms _ (status_eq→eq m.status queued e)
        (send_queued-Pointwise links (k + 1) ms))
  | inr e ↦ rw e (Follows-refl m, send_queued-Pointwise links k ms)
]

Follows-read :
    (m : Message)
    → Follows m (record m { status = if status_eq m.status unread then read else m.status })
Follows-read m = record {
  same_sender = refl;
  same_recipient = refl;
  same_text = refl;
  status = ground arith;
  identifier = inl refl;
}

pub mark_read-Pointwise : (id : ℕ) (ms : List Message) → Pointwise Follows ms (mark_read id ms).0
unfolding mark_read
mark_read-Pointwise id [] = tt
mark_read-Pointwise id (m ∷ ms) = (
  Follows-read m,
  elim (Bool-cases (m.identifier == id && entity_is_self m.recipient)) [
    | inl e ↦ rw e (Pointwise-refl Follows Follows-refl ms)
    | inr e ↦ rw e (mark_read-Pointwise id ms)
  ],
)

pub update_sent_status-Pointwise :
    (id : ℕ) (success : Bool) (c : Conversation)
    → Pointwise Follows c.messages (update_sent_status id success c).0.messages
unfolding update_sent_status
update_sent_status-Pointwise id success c =
    elim (Option-cases (find_sending id (length c.messages) c.messages)) [
      | inl e ↦ rw (e, update_sent_status) (Pointwise-refl Follows Follows-refl c.messages)
      | inr ((i, m), e) ↦
          let (at, waiting, _) = find_sending_at id (length c.messages) c.messages i m e in
          rw (e, update_sent_status)
            (set-Pointwise Follows Follows-refl c.messages i m _ at (Follows-ack m success waiting))
    ]

send_text-Extends :
    (link : Option Link) (random now : ℕ) (text : Bytes) (c : Conversation)
    → Extends c (send_text link random now text c).0
unfolding send_text
send_text-Extends link random now text c =
    let same =
      Extends-same c.messages c.messages (Pointwise-refl Follows Follows-refl c.messages) in
    elim (Bool-cases (length text == 0)) [
      | inl e ↦ rw e same
      | inr e ↦ elim (Bool-cases (ltb 2000 (length text))) [
        | inl l ↦ rw (e, l) same
        | inr l ↦ rw (e, l) (Extends-add c.messages _)
      ]
    ]

send_queued_messages-Extends :
    (connected : Bool) (links : ℕ → Option Link) (c : Conversation)
    → Extends c (send_queued_messages connected links c).0
unfolding send_queued_messages
send_queued_messages-Extends true links c =
    Extends-same _ _ (send_queued-Pointwise links 0 c.messages)
send_queued_messages-Extends false links c =
    Extends-same _ _ (Pointwise-refl Follows Follows-refl c.messages)

step-Extends : (c : Conversation) (o : Operation) → Extends c (step c o)
unfolding step
step-Extends c (receives id timestamp text) = unfold receive_message in Extends-add c.messages _
step-Extends c (acknowledged id success) =
    Extends-same _ _ (update_sent_status-Pointwise id success c)
step-Extends c (sends link random now text) = send_text-Extends link random now text c
step-Extends c (sends_queued connected links) = send_queued_messages-Extends connected links c
step-Extends c (marks_read id) =
    unfold mark_read_before_message in Extends-same _ _ (mark_read-Pointwise id c.messages)

Grows-trans :
    (xs ys zs : List Message) → Grows Follows xs ys → Grows Follows ys zs → Grows Follows xs zs
Grows-trans xs ys zs (k, a, e, h) (k', a', e', h') =
    let (k1, k2, f, p, q) = Pointwise-split Follows k a k' (rw e at h') in
    (
      k1,
      k2 ++ a',
      e' ∙ ap (λ r. r ++ a') f ∙ append_assoc k1 k2 a',
      Pointwise-trans Follows Follows-trans xs k k1 h p,
    )

-- Whatever is done to a conversation, in whatever order: its messages stay, in their order, with
-- their sender, recipient and text; each status develops only as `may_become` allows, so a delivered,
-- failed or read message stays as it is and a received one never becomes a sent one; an identifier
-- changes only while its message is waiting to be sent; and new messages stand behind the old ones.
pub run-Extends : (c : Conversation) (os : List Operation) → Extends c (run c os)
unfolding run
run-Extends c [] = Extends-same _ _ (Pointwise-refl Follows Follows-refl c.messages)
run-Extends c (o ∷ os) =
    Grows-trans c.messages (step c o).messages _ (step-Extends c o) (run-Extends (step c o) os)
