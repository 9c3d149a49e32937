-- ===== src/Protocol.antt =====
-- The wire protocol of src/core/protocol: the messages, their byte form, and the reader and writer
-- that `binrw` derives from the attributes of src/core/protocol/messages.rs.
pub mod Reader
pub mod Codes
pub mod Message
pub mod Write
pub mod Read
pub mod DirEntry
pub mod Stream
pub mod Errors
