-- ===== src/Cli.antt =====
-- Package main of ricochet-cli: the command line frontend.
pub mod Conversation
pub mod Contacts
pub mod Prefixes
pub mod Client
