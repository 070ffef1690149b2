-- ===== src/Cli/Conversation/Ends.antt =====
-- The ends of a conversation and whether it is shown (ricochet-cli/conversation.go).
use ricochet_go.Common.{Bool, ◌≡◌, inl, inr, refl, arith, Option-cases}
use ricochet_go.Rpc.{Message}
use ricochet_go.Cli.Conversation.{
  Conversation, trim_hard, trim_soft, trim_backlog, store_message, add_message, update_message,
  validate_message,
}

-- What a conversation never changes about itself.
pub record SameEnds (c c' : Conversation) : Type 0 where
  pub same_identity : c'.identity ≡ c.identity
  pub same_contact : c'.contact ≡ c.contact
  pub same_active : c'.active ≡ c.active

store_message-SameEnds : (c : Conversation) (m : Message) → SameEnds c (store_message c m)
unfolding store_message trim_backlog trim_hard trim_soft
store_message-SameEnds c m = record {
  same_identity = ground arith;
  same_contact = ground arith;
  same_active = ground arith;
}

pub add_message-SameEnds :
    (c : Conversation) (m : Message) (populating : Bool) → SameEnds c (add_message c m populating).0
unfolding add_message
add_message-SameEnds c m populating = elim (Option-cases (validate_message c m)) [
  | inl valid ↦ rw (valid, add_message) (store_message-SameEnds c m)
  | inr (e, bad) ↦
      rw (bad, add_message)
        (record { same_identity = refl; same_contact = refl; same_active = refl })
]

pub update_message-SameEnds : (c : Conversation) (m : Message) → SameEnds c (update_message c m)
unfolding update_message
update_message-SameEnds c m = record {
  same_identity = ground arith;
  same_contact = ground arith;
  same_active = ground arith;
}
