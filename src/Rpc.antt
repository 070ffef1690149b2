-- ===== src/Rpc.antt =====
-- The messages of the frontend API, as the generated code of rpc/ declares them (rpc/conversation.pb.go,
-- rpc/contact.pb.go, rpc/network.pb.go). A nil pointer is `none`; an int64 is its 64 bits.
use ricochet_go.Common.{List, ℕ, Bool, true, false, not, Option, Bytes, ◌≡◌, arith}

pub record Entity : Type 0 where
  pub address : Bytes
  pub is_self : Bool

pub data MessageStatus : Type 0 where
  null error queued sending delivered unread read : MessageStatus

pub record Message : Type 0 where
  pub sender : Option Entity
  pub recipient : Option Entity
  pub timestamp : ℕ
  pub identifier : ℕ
  pub status : MessageStatus
  pub text : Bytes

pub data ConversationEventType : Type 0 where
  null populate receive send update : ConversationEventType

pub record ConversationEvent : Type 0 where
  pub type : ConversationEventType
  pub msg : Option Message

-- Go's `==` on statuses.
abbrev pub status_eq : MessageStatus → MessageStatus → Bool
status_eq MessageStatus.null MessageStatus.null = true
status_eq MessageStatus.error MessageStatus.error = true
status_eq MessageStatus.queued MessageStatus.queued = true
status_eq MessageStatus.sending MessageStatus.sending = true
status_eq MessageStatus.delivered MessageStatus.delivered = true
status_eq MessageStatus.unread MessageStatus.unread = true
status_eq MessageStatus.read MessageStatus.read = true
status_eq _ _ = false

-- `GetSender().GetIsSelf()`-style reads of an entity that the code has found to be there.
abbrev pub entity_is_self : Option Entity → Bool
entity_is_self Option.none = false
entity_is_self (Option.some e) = e.is_self

pub status_eq→eq : (s t : MessageStatus) → status_eq s t ≡ true → s ≡ t
status_eq→eq s t h = ground arith

pub data ContactStatus : Type 0 where
  unknown offline online request rejected : ContactStatus

pub data Direction : Type 0 where
  inbound outbound : Direction

pub record ContactRequest : Type 0 where
  pub direction : Direction
  pub address : Bytes
  pub nickname : Bytes
  pub text : Bytes
  pub from_nickname : Bytes
  pub when_created : Bytes
  pub rejected : Bool
  pub when_delivered : Bytes
  pub when_rejected : Bytes
  pub remote_error : Bytes

-- The message `Contact`.
pub record ContactData : Type 0 where
  pub address : Bytes
  pub nickname : Bytes
  pub when_created : Bytes
  pub last_connected : Bytes
  pub request : Option ContactRequest
  pub status : ContactStatus

pub data ContactEventType : Type 0 where
  null populate add update delete : ContactEventType

pub data ContactSubject : Type 0 where
  contact : ContactData → ContactSubject
  request : ContactRequest → ContactSubject

pub record ContactEvent : Type 0 where
  pub type : ContactEventType
  pub subject : Option ContactSubject

abbrev pub is_rejected : ContactStatus → Bool
is_rejected ContactStatus.rejected = true
is_rejected _ = false

abbrev pub is_online : ContactStatus → Bool
is_online ContactStatus.online = true
is_online _ = false

pub data TorControlState : Type 0 where
  stopped error connecting connected : TorControlState

pub data TorConnectionState : Type 0 where
  unknown offline bootstrapping ready : TorConnectionState

pub record TorControlStatus : Type 0 where
  pub status : TorControlState
  pub error_message : Bytes
  pub tor_version : Bytes

pub record TorConnectionStatus : Type 0 where
  pub status : TorConnectionState
  pub bootstrap_progress : Bytes
  pub socks_address : List Bytes

-- The field `Process` is never set.
pub record NetworkStatus : Type 0 where
  pub control : Option TorControlStatus
  pub connection : Option TorConnectionStatus

abbrev pub is_ready : TorConnectionState → Bool
is_ready TorConnectionState.ready = true
is_ready _ = false

-- Go's `==` on types of events.
abbrev pub is_contact_populate : ContactEventType → Bool
is_contact_populate ContactEventType.populate = true
is_contact_populate _ = false

abbrev pub is_conversation_populate : ConversationEventType → Bool
is_conversation_populate ConversationEventType.populate = true
is_conversation_populate _ = false

-- The update of a message does not make it unread.
abbrev pub is_quiet : ConversationEventType → Message → Bool
is_quiet ConversationEventType.update m = not (status_eq m.status MessageStatus.unread)
is_quiet _ m = true

-- An event of a conversation is quiet unless it is an update to an unread message.
abbrev pub is_quiet_about : ConversationEventType → Option Message → Bool
is_quiet_about type Option.none = true
is_quiet_about type (Option.some m) = is_quiet type m

abbrev pub is_quiet_event : ConversationEvent → Bool
is_quiet_event event = is_quiet_about event.type event.msg
