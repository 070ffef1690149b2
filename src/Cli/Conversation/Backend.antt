-- ===== src/Cli/Conversation/Backend.antt =====
-- What ricochet-cli/conversation.go makes of the messages of core/conversation.go.
use ricochet_go.Common.{
  ◌==◌, ◌||◌, ltb, length, ◌≡◌, inl, inr, refl, false, if◌then◌else◌, Option, some, none, List,
  Bytes, bytes_eq_refl, All, All-map,
}
use ricochet_go.Rpc.{Message, null, status_eq}
use ricochet_go.Core.Conversation.{new_conversation}
use ricochet_go.Core.Conversation.History.{Operation, run}
use ricochet_go.Core.Conversation.Between.{IsBetween, self, new_conversation-HasEnds}
use ricochet_go.Cli.Conversation.{
  Conversation, Invalid, text_unacceptable, validate_message, validate_entities, validate_content,
  both_checks,
}

-- The one test that a message of the backend may fail.
abbrev pub text_check : Bytes → Option Invalid
text_check text =
    if length text == 0 || ltb 2000 (length text) then some text_unacceptable else none

validate_content_known :
    (m : Message) → status_eq m.status null ≡ false → validate_content m ≡ text_check m.text
unfolding validate_content
validate_content_known m h = rw h refl

entities_valid :
    (c : Conversation)
    → validate_entities c self (record { address = c.contact; is_self = false }) ≡ none
unfolding validate_entities
entities_valid c = rw (bytes_eq_refl c.contact) refl

validate_message-IsBetween :
    (c : Conversation) (m : Message)
    → IsBetween self (record { address = c.contact; is_self = false }) m
    → validate_message c m ≡ text_check m.text
unfolding validate_message both_checks
validate_message-IsBetween c m h = elim h.ends [
  | inl (s, r) ↦ simp (s, r, validate_message, entities_valid c) (validate_content_known m h.known)
  | inr (s, r) ↦ simp (s, r, validate_message, entities_valid c) (validate_content_known m h.known)
]

-- However a conversation of the backend has come about, a frontend that shows the contact accepts each of
-- its messages, whether sent or received, but those whose text is empty or longer than 2000 bytes, which it refuses for
-- that reason.
pub validate_message-run :
    (c : Conversation) (os : List Operation)
    → All
        (λ m. validate_message c m ≡ text_check m.text)
        (run (new_conversation (record { address = c.contact; is_self = false })) os).messages
validate_message-run c os =
    All-map (IsBetween self (record { address = c.contact; is_self = false }))
      (validate_message-IsBetween c) _
      (new_conversation-HasEnds (record { address = c.contact; is_self = false }) os).between
