-- ===== src/Cli/Conversation.antt =====
-- ricochet-cli/conversation.go: the backlog of one conversation in the frontend.
-- A method returns the new conversation and its effects in order: what is printed, and the calls of
-- the backend. What a printed line looks like is not modelled.
pub mod Backlog
pub mod Unread
pub mod Ends
pub mod Backend
pub mod Tests
use ricochet_go.Common.{
  ℕ, zero, suc, ◌+◌, ◌-◌, Bool, true, false, not, ◌&&◌, ◌||◌, Option, none, some, List, [], ◌∷◌,
  ◌++◌, Bytes, bytes_eq, length, bool_eq, get_elem?, set, drop, ltb, leb, ◌==◌, if◌then◌else◌,
}
use ricochet_go.Common.Int.{ℤ, pos, increment, decrement}
use ricochet_go.Rpc.{Entity, Message, MessageStatus, null, unread, read, status_eq, entity_is_self}

abbrev pub max_message_text_length : ℕ
max_message_text_length = 2000

abbrev pub backlog_context_num : ℕ
backlog_context_num = 3

abbrev pub backlog_soft_limit : ℕ
backlog_soft_limit = 100

abbrev pub backlog_hard_limit : ℕ
backlog_hard_limit = 200

-- `identity` is `c.Client.Identity.Address` and `contact` is `c.Contact.Data.Address`.
pub record Conversation : Type 0 where
  pub identity : Bytes
  pub contact : Bytes
  pub messages : List Message
  pub num_unread : ℤ
  pub active : Bool

pub data Effect : Type 0 where
  print_notice : ℤ → Effect  -- "%d new messages from"
  print_line : Message → Effect
  send_message : Bytes → Bytes → Effect  -- the recipient's address and the text
  mark_conversation_read : Option Entity → ℕ → Effect

pub data Invalid : Type 0 where
  entities_incomplete invalid_self invalid_remote null_status text_unacceptable outbound : Invalid

validate_entities : Conversation → Entity → Entity → Option Invalid
validate_entities c local remote =
    if not local.is_self
      || (ltb 0 (length local.address) && not (bytes_eq local.address c.identity))
    then some invalid_self
    else if remote.is_self || not (bytes_eq remote.address c.contact)
    then some invalid_remote
    else none

validate_content : Message → Option Invalid
validate_content msg =
    if status_eq msg.status null
    then some null_status
    else if length msg.text == 0 || ltb max_message_text_length (length msg.text)
    then some text_unacceptable
    else none

both_checks : Option Invalid → Option Invalid → Option Invalid
both_checks none e = e
both_checks (some e) _ = some e

-- `none` is a nil error.
unfoldable pub validate_message : Conversation → Message → Option Invalid
unfolding validate_entities validate_content both_checks
validate_message c msg = elim msg.sender [
  | none ↦ some entities_incomplete
  | some sender ↦ elim msg.recipient [
    | none ↦ some entities_incomplete
    | some recipient ↦
        let local = if sender.is_self then sender else recipient in
        let remote = if sender.is_self then recipient else sender in
        both_checks (validate_entities c local remote) (validate_content msg)
  ]
]

-- The message sent is reported by an event later; the answer is only validated and logged.
unfoldable pub send_text : Conversation → Bytes → List Effect
send_text c text = send_message c.contact text ∷ []

abbrev pub is_unread : Message → Bool
is_unread m = status_eq m.status unread

-- `recountUnread`.
pub count_unread : List Message → ℕ
count_unread [] = 0
count_unread (m ∷ ms) = let n = count_unread ms in if is_unread m then suc n else n

-- The loop of `trimBacklog` from index `i` on, in a backlog of `n` messages; `i - 3` stops at 0, as
-- `keepIndex` is made to.
pub keep_index : ℕ → ℕ → List Message → ℕ
keep_index n i [] = 0
keep_index n i (m ∷ ms) =
    let next = keep_index n (i + 1) ms in
    if is_unread m
    then i - backlog_context_num
    else if leb (n - i) backlog_soft_limit
    then i
    else next

unfoldable pub trim_hard : Conversation → Conversation
unfolding count_unread
trim_hard c =
    let kept = drop (length c.messages - backlog_hard_limit) c.messages in
    if ltb backlog_hard_limit (length c.messages)
    then record c { messages = kept; num_unread = pos (count_unread kept) }
    else c

unfoldable pub trim_soft : Conversation → Conversation
unfolding keep_index
trim_soft c =
    if leb (length c.messages) backlog_soft_limit
    then c
    else record c { messages = drop (keep_index (length c.messages) 0 c.messages) c.messages }

unfoldable pub trim_backlog : Conversation → Conversation
unfolding trim_hard trim_soft
trim_backlog c = trim_soft (trim_hard c)

unfoldable pub print_message : Conversation → Message → List Effect
print_message c msg =
    if not c.active
    then (if entity_is_self msg.sender then [] else print_notice c.num_unread ∷ [])
    else print_line msg ∷ []

unfoldable pub mark_as_read_before : Conversation → Message → List Effect × Option Invalid
unfolding validate_message
mark_as_read_before c message = elim (validate_message c message) [
  | some e ↦ ([], some e)
  | none ↦
      if entity_is_self message.sender
      then ([], some outbound)
      else (mark_conversation_read message.sender message.identifier ∷ [], none)
]

-- `AddMessage` after the validation.
store_message : Conversation → Message → Conversation
unfolding trim_backlog
store_message c msg = trim_backlog (record c {
  messages = c.messages ++ msg ∷ [];
  num_unread = if is_unread msg then increment c.num_unread else c.num_unread;
})

unfoldable pub add_message : Conversation → Message → Bool → Conversation × List Effect
unfolding validate_message store_message print_message mark_as_read_before
add_message c msg populating = elim (validate_message c msg) [
  | some e ↦ (c, [])
  | none ↦
      let c' = store_message c msg in
      (
        c',
        if populating
            then []
            else print_message c' msg ++ (if c'.active then (mark_as_read_before c' msg).0 else []),
      )
]

-- Whether an update is about a message: its direction and its identifier are the same.
abbrev pub same_message : Message → Message → Bool
same_message updated msg = not (
    not (bool_eq (entity_is_self msg.sender) (entity_is_self updated.sender))
    || not (msg.identifier == updated.identifier))

-- The search of `UpdateMessage`, from the last message down: `n` messages are left to look at.
pub find_same : Message → ℕ → List Message → Option (ℕ × Message)
find_same updated zero messages = none
find_same updated (suc i) messages = elim (get_elem? messages i) [
  | none ↦ none
  | some msg ↦ elim (same_message updated msg) [
    | true ↦ some (i, msg)
    | false ↦ find_same updated i messages
  ]
]

unfoldable pub update_message : Conversation → Message → Conversation
unfolding validate_message find_same
update_message c updated = elim (validate_message c updated) [
  | some e ↦ c
  | none ↦ elim (find_same updated (length c.messages) c.messages) [
    | none ↦ c
    | some (i, msg) ↦ record c {
      messages = set c.messages i updated;
      num_unread =
          if is_unread msg && not (is_unread updated) then decrement c.num_unread else c.num_unread;
    }
  ]
]

-- The search of `MarkAsRead`, from the last message down: an unread message before any read one.
pub last_received : ℕ → List Message → Option Message
last_received zero messages = none
last_received (suc i) messages = elim (get_elem? messages i) [
  | none ↦ none
  | some msg ↦ elim (is_unread msg) [
    | true ↦ some msg
    | false ↦ elim (status_eq msg.status read) [ true ↦ none | false ↦ last_received i messages ]
  ]
]

unfoldable pub mark_as_read : Conversation → List Effect
unfolding last_received mark_as_read_before
mark_as_read c = elim (last_received (length c.messages) c.messages) [
  | none ↦ []
  | some msg ↦ (mark_as_read_before c msg).0
]

-- The start of `PrintContext`: three messages before the first unread one, else before the end.
pub context_start : ℕ → ℕ → List Message → ℕ
context_start n i [] = n - backlog_context_num
context_start n i (m ∷ ms) =
    if is_unread m then i - backlog_context_num else context_start n (i + 1) ms

print_all : Conversation → List Message → List Effect
unfolding print_message
print_all c [] = []
print_all c (m ∷ ms) = print_message c m ++ print_all c ms

unfoldable pub print_context : Conversation → List Effect
unfolding context_start print_all
print_context c = print_all c (drop (context_start (length c.messages) 0 c.messages) c.messages)

unfoldable pub set_active : Conversation → Bool → Conversation × List Effect
unfolding print_context mark_as_read
set_active c active =
    let c' = record c { active = active } in
    if bool_eq active c.active
    then (c, [])
    else (c', if active then print_context c' ++ mark_as_read c' else [])
