-- ===== src/Chat.antt =====
-- AIApps/ChatServer: the program on top of the HTTP library.
pub mod Utf8
pub mod Sql
pub mod Sse
pub mod Accounts
pub mod History
pub mod Register
pub mod Deletion
pub mod Json
pub mod Strategy
pub mod Config
pub mod Helper
pub mod Curl
pub mod Conversation
pub mod Handlers
pub mod Queue
