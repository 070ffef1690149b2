-- ===== src/Cli/Client/Run.antt =====
-- The client of ricochet-cli/client.go from its start on, and behind a conversation of core/conversation.go.
use ricochet_go.Common.{true, Bytes, lookup, is_some, Option, some, ◌≡◌, List, [], ◌∷◌}
use ricochet_go.Rpc.{ContactEvent, ConversationEvent, NetworkStatus, is_quiet_event}
use ricochet_go.Core.Conversation.{Conversation}
use ricochet_go.Core.Conversation.History.{Operation}
use ricochet_go.Core.Conversation.Events.{AreQuiet, published_by, published_by-AreQuiet}
use ricochet_go.Cli.Client.{
  Client, initial_client, set_current_contact, on_network_status, on_contact_event,
  on_conversation_event,
}
use ricochet_go.Cli.Client.Invariant.{IsWellFormed}
use ricochet_go.Cli.Client.Events.{
  initial_client-IsWellFormed, on_network_status-IsWellFormed, on_contact_event-IsWellFormed,
  on_conversation_event-IsWellFormed,
}
use ricochet_go.Cli.Client.Current.{set_current_contact-IsWellFormed}

-- What the client comes to: the backend's events in any order, with no update that makes a message
-- unread, and the user's choices among the contacts listed.
pub data IsReachable (identity : Bytes) : Client → Type 0 where
  start : IsReachable identity (initial_client identity)
  network :
      {c : Client} (status : NetworkStatus)
      → IsReachable identity c
      → IsReachable identity (on_network_status status c)
  contact :
      {c : Client} (event : ContactEvent)
      → IsReachable identity c
      → IsReachable identity (on_contact_event event c)
  conversation :
      {c : Client} (event : ConversationEvent)
      → is_quiet_event event ≡ true
      → IsReachable identity c
      → IsReachable identity (on_conversation_event event c)
  selects :
      {c : Client} (o : Option Bytes)
      → ((a : Bytes) → o ≡ some a → is_some (lookup a c.list.contacts) ≡ true)
      → IsReachable identity c
      → IsReachable identity (set_current_contact o c)

-- Whatever events come in whatever order, if no update makes a message unread, and whichever listed contacts the user
-- chooses: every contact stands under its own address, with a conversation between it and the identity whose unread count is
-- exact; exactly the current contact's conversation is shown, and that contact is listed; and the client is
-- initialized exactly when the network, the contacts and the conversations have all been populated.
pub reachable-IsWellFormed :
    (identity : Bytes) (c : Client) → IsReachable identity c → IsWellFormed c
reachable-IsWellFormed identity _ start = initial_client-IsWellFormed identity
reachable-IsWellFormed identity _ (network {c} status r) =
    on_network_status-IsWellFormed status c (reachable-IsWellFormed identity c r)
reachable-IsWellFormed identity _ (contact {c} event r) =
    on_contact_event-IsWellFormed event c (reachable-IsWellFormed identity c r)
reachable-IsWellFormed identity _ (conversation {c} event q r) =
    on_conversation_event-IsWellFormed event c q (reachable-IsWellFormed identity c r)
reachable-IsWellFormed identity _ (selects {c} o known r) =
    set_current_contact-IsWellFormed o c known (reachable-IsWellFormed identity c r)

-- The events of a stream, one at a time.
unfoldable pub on_conversation_events : List ConversationEvent → Client → Client
on_conversation_events [] c = c
on_conversation_events (event ∷ events) c =
    on_conversation_events events (on_conversation_event event c)

on_quiet_events-IsWellFormed :
    (events : List ConversationEvent) (c : Client)
    → AreQuiet events
    → IsWellFormed c
    → IsWellFormed (on_conversation_events events c)
unfolding on_conversation_events
on_quiet_events-IsWellFormed [] c q w = w
on_quiet_events-IsWellFormed (event ∷ events) c q w =
    on_quiet_events-IsWellFormed events (on_conversation_event event c) q.1
      (on_conversation_event-IsWellFormed event c q.0 w)

-- A frontend that is well-formed stays so while it handles, in order, every event that a conversation of the
-- backend publishes, whatever is done to that conversation.
pub published_by-on_conversation_events :
    (talk : Conversation) (os : List Operation) (c : Client)
    → IsWellFormed c
    → IsWellFormed (on_conversation_events (published_by talk os) c)
published_by-on_conversation_events talk os c w =
    on_quiet_events-IsWellFormed (published_by talk os) c (published_by-AreQuiet talk os) w
