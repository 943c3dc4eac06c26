-- ===== src/Examples.antt =====
-- The theorems at concrete inputs.
pub mod Http
pub mod Chat
pub mod Routing
pub mod Sessions
pub mod Documents
pub mod Service
pub mod Talk
pub mod Restart
pub mod Names
