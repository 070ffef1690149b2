-- ===== src/Lib.antt =====
-- Ricochet client in Go: a verification of its backend core (core/) and its command line frontend
-- (ricochet-cli/).
--
-- The parts. The backend holds an identity with a list of contacts. Each contact runs a connection
-- loop over the ricochet protocol library and owns a conversation; both report changes as events of
-- the gRPC API (rpc/). The frontend receives these events, keeps its own backlog for each contact,
-- and calls the backend to send messages and to mark them as read.
--
-- The files.
--   Common: Boolean tests on ℕ, lists over ℕ indices, byte strings, association lists, integers, and
--     `Exec`, the outcomes of code that holds a mutex: done, deadlock (the goroutine waits for ever,
--     with the state that it does so in) and fault (a panic).
--   Rpc: the messages of rpc/conversation.pb.go and rpc/contact.pb.go. A nil pointer is `none`.
--   Core.Address: core/address.go, one function for each of the Go functions (address_from_onion is
--     AddressFromOnion); a pair of text and flag is a pair.
--   Core.Sanitize: core/sanitize.go (is_nickname_acceptable, is_message_acceptable), with the UTF-8
--     decoding and the Unicode categories of Go's standard library. The loops take the number of bytes
--     as fuel: each round consumes one byte at least.
--   Core.Conversation: core/conversation.go. The state is the record `Conversation`; a method returns
--     the new state, the events published in order, and its result (send_text is Send, update_sent_status
--     is UpdateSentStatus, send_queued_messages is SendQueuedMessages, mark_read_before_message is
--     MarkReadBeforeMessage, chat_message and chat_message_ack are ChatMessage and ChatMessageAck). What
--     the protocol library answers is a `Link` for each attempt, and all answers are allowed.
--   Core.Contact: core/contact.go. The methods run in `Exec` on the contact with its mutex, the
--     configuration's contacts and a trace of effects. Core.Contact.Loop is contactConnection, one
--     round for each `Input` of its select; Core.Contact.Outbound is connectOutbound and
--     sendContactRequest over a list of attempts, with the answers of the network and the peer.
--   Core.ContactList, Core.InboundRequest, Core.Requests: core/contactlist.go and
--     core/inboundcontactrequest.go. Contacts and requests are objects on a heap and the maps hold their
--     numbers, so that the sharing of a request between the list and its connection is in the model. A
--     method is one step, and calls do not interleave. Each takes the mutexes that it takes in the code, of
--     the list (list_locked), of a request (request_locked) and of a contact, and blocks where one is held: by
--     itself, or by a call before it that never ended. accept_held is acceptWithContact. Core.Requests has the two operations that
--     need both files (add_contact_request, add_or_update_inbound_contact_request).
--   Core.InboundHandler: HandleInboundRequestConnection of core/inboundcontactrequest.go, in two parts,
--     `begin` up to the wait for the user's answer and `resume` from there.
--   Core.Utils: UnquoteStringSplit of core/utils/misc.go, on the runes of a string.
--   Core.Network: core/network.go. Core.Network.Socks is chooseSocksAddress and what it calls.
--     Core.Network.Control is the state behind the control mutex with what starts, stops and connects
--     (start, stop, begin_attempt, connect_control, on_error, on_stop), Core.Network.Query what tor
--     answers (query_tor_state is queryTorState), Core.Network.Services the calls of the rest of the
--     program and the control events (on_control_event is one round of handleControlEvents), and
--     Core.Network.Run the loop `run` as the states that it reaches.
--   Core.RpcServer: core/rpcserver.go, a function for each handler (rpc_send_message is SendMessage).
--     A stream is its population and then the events delivered, up to the first Send that fails.
--   Core.Utils.Publisher: core/utils/publisher.go, the channels of the subscribers (perform is one round
--     of broadcast).
--   Cli.Conversation: ricochet-cli/conversation.go. A method returns the new backlog and its effects:
--     lines printed and calls of the backend.
--   Cli.Contacts: ricochet-cli/contact.go. Cli.Client: ricochet-cli/client.go, a function for each
--     handler of an event (on_contact_event is onContactEvent), and SetCurrentContact of
--     ricochet-cli/ui.go, which shows and hides conversations. Cli.Client.Population, Cli.Client.Mirror,
--     Cli.Client.Calls, Cli.Client.Handlers and Cli.Conversation.Backend put the frontend behind the
--     backend: they run it on the events that the backend publishes.
--   Cli.Prefixes: EntityByPrefix and PrefixForAddress of ricochet-cli/ui.go.
--
-- Bounds. Identifiers of messages are uint32 with their wrap-around. Lengths of texts are lengths in
-- bytes. Times are nanoseconds, and a difference of times stops at 0. The searches from the last
-- message down recurse on the number of messages. The connector's loop runs over the attempts given,
-- and ends as `unfinished` if it would make another one. The loop that lengthens a prefix has one round
-- more as fuel than its host has bytes, and never needs more, as the prefix grows within the host.
--
-- Not modelled: the generated gRPC code, the library of the control port, sockets and the protocol
-- library, whose answers are arguments, as are net.SplitHostPort, net.ParseIP and strings.TrimSpace;
-- core/identity.go, core/onionconnector.go and core/config/config.go, which mostly call these; Close of
-- the publisher, and, for the other parts, how its events reach their subscribers: there they are a list in
-- the order of publication; the terminal interface, and the text of logs and printed lines.
pub mod Common
pub mod Rpc
pub mod Core
pub mod Cli
