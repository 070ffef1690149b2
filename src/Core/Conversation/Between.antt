-- ===== src/Core/Conversation/Between.antt =====
-- core/conversation.go: the two ends of every message of a conversation.
use ricochet_go.Common.{
  ℕ, ◌==◌, ltb, ◌≡◌, ◌⊎◌, inl, inr, refl, ap, ◌∙◌, Bool, true, false, Option, some, List, [], ◌∷◌,
  ◌++◌, Bytes, length, Pointwise, All, All-append, arith, Bool-cases,
}
use ricochet_go.Rpc.{Entity, Message, MessageStatus, null, status_eq}
use ricochet_go.Core.Conversation.{
  Conversation, Link, status_after, send_message_to_connection, send_on_channel, new_conversation,
  receive_message, update_sent_status, send_text, send_queued_messages, mark_read_before_message,
}
use ricochet_go.Core.Conversation.History.{
  Follows, Operation, receives, acknowledged, sends, sends_queued, marks_read, step, run,
  may_become, update_sent_status-Pointwise, send_queued-Pointwise, mark_read-Pointwise,
}

-- A message from one end to the other, with a status.
pub record IsBetween (local remote : Entity) (m : Message) : Type 0 where
  pub ends :
      ((m.sender ≡ some local) × (m.recipient ≡ some remote))
      ⊎ ((m.sender ≡ some remote) × (m.recipient ≡ some local))
  pub known : status_eq m.status null ≡ false

Follows-IsBetween :
    (local remote : Entity) (m m' : Message)
    → Follows m m'
    → IsBetween local remote m
    → IsBetween local remote m'
Follows-IsBetween local remote m m' f h = record {
  ends = elim h.ends [
    | inl (s, r) ↦ inl (f.same_sender ∙ s, f.same_recipient ∙ r)
    | inr (s, r) ↦ inr (f.same_sender ∙ s, f.same_recipient ∙ r)
  ];
  known = still_known m.status m'.status f.status h.known;
}
  where
    still_known :
        (s t : MessageStatus)
        → may_become s t ≡ true
        → status_eq s null ≡ false
        → status_eq t null ≡ false
    still_known s t k n = ground arith

Pointwise-IsBetween :
    (local remote : Entity) (ms ms' : List Message)
    → Pointwise Follows ms ms'
    → All (IsBetween local remote) ms
    → All (IsBetween local remote) ms'
Pointwise-IsBetween local remote [] [] p h = tt
Pointwise-IsBetween local remote [] (m' ∷ ms') p h = absurd p
Pointwise-IsBetween local remote (m ∷ ms) [] p h = absurd p
Pointwise-IsBetween local remote (m ∷ ms) (m' ∷ ms') p h =
    (Follows-IsBetween local remote m m' p.0 h.0, Pointwise-IsBetween local remote ms ms' p.1 h.1)

-- Every message of the conversation is between the two ends.
pub record HasEnds (local remote : Entity) (c : Conversation) : Type 0 where
  pub same_local : c.local_entity ≡ local
  pub same_remote : c.remote_entity ≡ remote
  pub between : All (IsBetween local remote) c.messages

append-IsBetween :
    (local remote : Entity) (ms : List Message) (m : Message)
    → All (IsBetween local remote) ms
    → IsBetween local remote m
    → All (IsBetween local remote) (ms ++ m ∷ [])
append-IsBetween local remote ms m h k = All-append (IsBetween local remote) ms (m ∷ []) h (k, tt)

update_sent_status_local :
    (id : ℕ) (success : Bool) (c : Conversation)
    → (update_sent_status id success c).0.local_entity ≡ c.local_entity
unfolding update_sent_status
update_sent_status_local id success c = ground arith

update_sent_status_remote :
    (id : ℕ) (success : Bool) (c : Conversation)
    → (update_sent_status id success c).0.remote_entity ≡ c.remote_entity
unfolding update_sent_status
update_sent_status_remote id success c = ground arith

sent_known : (connected failed : Bool) → status_eq (status_after connected failed) null ≡ false
sent_known connected failed = ground arith

sent_ends :
    (link : Option Link) (m : Message)
    → let m' = (send_message_to_connection link m).0 in
      (m'.sender ≡ m.sender) × (m'.recipient ≡ m.recipient)
unfolding send_message_to_connection send_on_channel
sent_ends link m = ground arith

send_text-HasEnds :
    (local remote : Entity) (link : Option Link) (random now : ℕ) (text : Bytes) (c : Conversation)
    → HasEnds local remote c
    → HasEnds local remote (send_text link random now text c).0
unfolding send_text
send_text-HasEnds local remote link random now text c h = elim (Bool-cases (length text == 0)) [
  | inl e ↦ rw e h
  | inr e ↦ elim (Bool-cases (ltb 2000 (length text))) [
    | inl l ↦ rw (e, l) h
    | inr l ↦
        rw (e, l)
          (record {
            same_local = h.same_local;
            same_remote = h.same_remote;
            between = append-IsBetween local remote c.messages _ h.between (record {
              ends = inl (
                (sent_ends link _).0 ∙ ap some h.same_local,
                (sent_ends link _).1 ∙ ap some h.same_remote,
              );
              known = sent_known _ _;
            });
          })
  ]
]

step-HasEnds :
    (local remote : Entity) (c : Conversation) (o : Operation)
    → HasEnds local remote c
    → HasEnds local remote (step c o)
unfolding step
step-HasEnds local remote c (receives id timestamp text) h =
    unfold receive_message in
    record {
      same_local = h.same_local;
      same_remote = h.same_remote;
      between =
          append-IsBetween local remote c.messages _ h.between
            (record { ends = inr (ap some h.same_remote, ap some h.same_local); known = refl });
    }
step-HasEnds local remote c (acknowledged id success) h = record {
  same_local = update_sent_status_local id success c ∙ h.same_local;
  same_remote = update_sent_status_remote id success c ∙ h.same_remote;
  between =
      Pointwise-IsBetween local remote c.messages _ (update_sent_status-Pointwise id success c)
        h.between;
}
step-HasEnds local remote c (sends link random now text) h =
    send_text-HasEnds local remote link random now text c h
step-HasEnds local remote c (sends_queued true links) h =
    unfold send_queued_messages in
    record {
      same_local = h.same_local;
      same_remote = h.same_remote;
      between =
          Pointwise-IsBetween local remote c.messages _ (send_queued-Pointwise links 0 c.messages)
            h.between;
    }
step-HasEnds local remote c (sends_queued false links) h = unfold send_queued_messages in h
step-HasEnds local remote c (marks_read id) h =
    unfold mark_read_before_message in
    record {
      same_local = h.same_local;
      same_remote = h.same_remote;
      between =
          Pointwise-IsBetween local remote c.messages _ (mark_read-Pointwise id c.messages)
            h.between;
    }

run-HasEnds :
    (local remote : Entity) (os : List Operation) (c : Conversation)
    → HasEnds local remote c
    → HasEnds local remote (run c os)
unfolding run
run-HasEnds local remote [] c h = h
run-HasEnds local remote (o ∷ os) c h =
    run-HasEnds local remote os (step c o) (step-HasEnds local remote c o h)

abbrev pub self : Entity
self = record { address = []; is_self = true }

pub new_conversation-HasEnds :
    (remote : Entity) (os : List Operation) → HasEnds self remote (run (new_conversation remote) os)
new_conversation-HasEnds remote os =
    run-HasEnds self remote os (new_conversation remote)
      (unfold new_conversation in record { same_local = refl; same_remote = refl; between = tt })
