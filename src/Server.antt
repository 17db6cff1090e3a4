-- ===== src/Server.antt =====
-- The package `server`: the message protocol, sessions and the WebSocket server.
pub mod Auth
pub mod Protocol
pub mod Session
mod Tests
