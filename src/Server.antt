-- ===== src/Server.antt =====
-- The server of src/core/server and src/server/main.rs: the handlers of messages, the session of a
-- client, and the sessions of several.
pub mod Chunks
pub mod Handlers
pub mod OnDisk
pub mod Session
pub mod Clients
