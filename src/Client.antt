-- ===== src/Client.antt =====
-- The client of src/core/fs/handler.rs and src/core/client: its connection, its calls, what it makes
-- of the replies, and its FUSE front end.
pub mod Replies
pub mod Combine
pub mod Calls
pub mod Connection
pub mod Fuse
pub mod Program
