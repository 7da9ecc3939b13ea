-- ===== src/Chat.antt =====
-- 5: a chat over sockets, its server and its client.
pub mod Framing
pub mod Link
pub mod Server
pub mod Client
pub mod Relay
mod Tests
