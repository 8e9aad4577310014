-- ===== src/Client.antt =====
-- The terminal side, src/client.rs.
pub mod Escape
pub mod Relay
pub mod Reconnect
pub mod Stdout
pub mod Terminal
pub mod Run
