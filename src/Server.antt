-- ===== src/Server.antt =====
-- crates/statik_server: the configuration, the protocol choice and the connection of one client.
pub mod Text
pub mod Config
pub mod Protocol
pub mod Exec
pub mod Connection
pub mod Shutdown
pub mod Handler
pub mod Api
pub mod Channels
pub mod Accept
