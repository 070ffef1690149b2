-- ===== src/Cli/Conversation/Tests.antt =====
-- ricochet-cli/conversation.go on a backlog with one unread message.
use ricochet_go.Core.Conversation.{new_conversation}
use ricochet_go.Core.Conversation.History.{receives, marks_read, run}
use ricochet_go.Cli.Conversation.Backend.{text_check, validate_message-run}
use ricochet_go.Common.{All, ◌≡◌, bytes_eq, true, false, refl, some, [], ◌∷◌, ◌++◌, codes}
use ricochet_go.Common.Int.{pos}
use ricochet_go.Rpc.{Entity, Message, unread}
use ricochet_go.Cli.Conversation.{Conversation, validate_message, add_message, count_unread}
use ricochet_go.Cli.Conversation.Backlog.{Trimmed, add_message-Trimmed}
use ricochet_go.Cli.Conversation.Unread.{IsCounted, add_message-IsCounted}

abbrev me : Entity
me = record { address = codes "ricochet:2222222222222222"; is_self = true }

abbrev peer : Entity
peer = record { address = codes "ricochet:abcdefghij234567"; is_self = false }

abbrev received : Message
received = record {
  sender = some peer;
  recipient = some me;
  timestamp = 6;
  identifier = 7;
  status = unread;
  text = codes "hello";
}

abbrev backlog : Conversation
backlog = record {
  identity = me.address;
  contact = peer.address;
  messages = received ∷ [];
  num_unread = pos 1;
  active = false;
}

add_message-Trimmed_example :
    Trimmed (backlog.messages ++ received ∷ []) (add_message backlog received false).0.messages
add_message-Trimmed_example =
    add_message-Trimmed backlog received false (unfold validate_message bytes_eq in refl)

add_message-IsCounted_example : IsCounted (add_message backlog received false).0
add_message-IsCounted_example =
    add_message-IsCounted backlog received false (unfold count_unread in refl)

validate_message-run_example :
    All
      (λ m. validate_message backlog m ≡ text_check m.text)
      (run
        (new_conversation (record { address = backlog.contact; is_self = false }))
        (receives 7 6 (codes "hello") ∷ receives 8 6 [] ∷ marks_read 7 ∷ [])).messages
validate_message-run_example =
    validate_message-run backlog
      (receives 7 6 (codes "hello") ∷ receives 8 6 [] ∷ marks_read 7 ∷ [])
