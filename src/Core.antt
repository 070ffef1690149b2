-- ===== src/Core.antt =====
-- Package core: the client backend.
pub mod Address
pub mod Network
pub mod Sanitize
pub mod Contact
pub mod Conversation
pub mod ContactList
pub mod InboundRequest
pub mod Requests
pub mod RpcServer
pub mod InboundHandler
pub mod Utils
