-- ===== src/Lib.antt =====
-- AZPFS, a networked file system: a FUSE daemon forwards the calls of the kernel over a stream to a
-- server, which runs them against a directory on its disk. This library models the program's
-- protocol, the server's sessions, handlers and file system on a disk, and the client's connection,
-- calls and FUSE front end, and sets a mount over the network beside one on the server.
--
-- The parts, and the files that model them (paths from the repository's root):
--
-- - Base: lists, tests and big-endian words; Io: `std::io::Error` and the ways an operation ends
--   (a value, an error, a panic of its task, or waiting without end).
-- - Protocol.Message, Protocol.Codes: the enum `Message` of src/core/protocol/messages.rs with
--   `FileType` and `ErrorCode`. Protocol.Write and Protocol.Read: the writer and the reader that
--   `#[binrw]` derives from the attributes on that enum, field by field, and
--   `MessageCodec::decode` of src/core/protocol/codec.rs, over the readers of Protocol.Reader.
--   `read_x` reads the variant `X`; `variants` lists the readers by magic byte. Protocol.Stream is about
--   the bytes of several messages, and Protocol.Stream.Pieces about how `decode` takes messages off
--   bytes that arrive in pieces.
-- - Protocol.DirEntry: src/core/protocol/dir_entry.rs. Protocol.Errors: src/core/protocol/error.rs.
-- - Fs.Attr: times, `FileAttr` and `FsStats` of src/core/fs/mod.rs with their messages.
--   Fs.Backend: the trait `FsBackend`, a record of operations on a state.
-- - Fs.Disk: `DiskFs` of src/core/fs/disk.rs, with its operations on files in Fs.Disk.Files, those on
--   entries in Fs.Disk.Entries and the loop of `read_dir` in Fs.Disk.Listing. It stands on Fs.Os, the
--   file system of the operating system, a parameter; Fs.Paths has what it uses of `std::path`, and
--   Fs.Run the sequencing of operations. Fs.Disk.Mapping, Renaming and Resolution are about the inode
--   map, Fs.Disk.Confined about the paths that reach the operating system, beside a sandbox of it,
--   Fs.Os.Sandbox, and Fs.Paths.Below about the paths below a directory. Server.OnDisk sets the file
--   system under `handle_msg` and under the server.
-- - Server.Chunks and Server.Handlers: `assemble_read_res_chunks` and `handle_msg` of
--   src/core/server/handlers.rs, over any `FsBackend`.
-- - Client.Replies, Client.Combine and Client.Calls: `await_success`, `next_message`,
--   `combine_read_chunks` and the operations of `ClientHandler` in src/core/fs/handler.rs. A call is
--   the message that is sent and what is made of the listener's messages.
-- - Client.Connection: the ids, listeners and channels of a connection in src/core/fs/handler.rs, with
--   `register_listener`, `send_msg`, `receive_loop` and, in Client.Connection.Handshake, `init` and
--   `new`. What the reader yields is a list, and the texts of `{:?}` are parameters. Routing and About
--   are about which messages reach which listener. Client.Program: `main` of src/client/main.rs from
--   the connection to the file system that it mounts.
-- - Client.Fuse and Client.Fuse.Operations: `FUSEFilesystem` of src/core/client/fuse.rs over any
--   `FsBackend`, with the mutex round it; an `Operation` is a call of the kernel. Listing, Locking and
--   Removing are about `readdir`, the mutex, and `unlink` over `DiskFs`.
-- - Server.Session: `handle_client` of src/core/server/mod.rs, a step relation on the reader, the tasks
--   of its messages, the lock on the file system, the channel and the writer, which may stall when the
--   client does not read. Server.Session.Effects is
--   about what a step does to requests and replies, Server.Session.Runs about how a session goes on.
-- - Server.Clients: the server of src/server/main.rs, which runs a session for each client over one
--   locked file system. Its clients are numbered, and a step is a step of one client's session, which
--   sees the lock of another's task as one that is kept. `Put` and `Serial` set it beside all requests
--   one after another, `Runs`, `Exclusion`, `Blocked`, `Ends` and `Completion` are about its runs, and
--   `Wire` about the bytes that it writes, with Protocol.Stream.
-- - Remote: a call against `handle_msg`, and the `FsBackend` that all calls together make of the
--   server's. The order in which the replies to a request arrive is a parameter, any rearrangement:
--   each chunk of a READ reply is sent by a task of its own. Remote.Connected and Remote.Handshake are
--   about one call over a connection. Remote.Link: `ClientHandler` and the server's state together,
--   where the request of each call is encoded, the server's reader takes messages off its bytes and
--   handles them, and the client's reader takes messages off the bytes that come for it, which are a
--   parameter: they must hold the replies, in any order, and may hold other messages. Remote.Mirror: the
--   interface of a file system that another one shows, which Remote.Mounted takes to the FUSE front end,
--   and which Remote.Link.Shown fills. Remote.Started begins with the client's `main`, and Remote.Served sets
--   a call among those of the server's other clients.
-- - Tests: runs, and the theorems at concrete inputs.
--
-- Numbers are natural numbers, and the predicates `IsTyped` and `Fits` say what the Rust types and
-- the length prefixes admit; where the source cuts a number to a width, the model has the remainder
-- by its power of two. `usize` is taken to have 64 bits, and the count of received bytes not to
-- overflow. A text is its bytes. The text of an error of `binrw` is a parameter.
--
-- Fuel: `parse_dir_entries` has as much as there are bytes, since an entry takes one at least;
-- `assemble_read_res_chunks` has as much as there are bytes, since a chunk has one at least. Taking
-- messages off pieces needs as much as there are messages and pieces, and one more; `off_wire` has the
-- number of bytes and pieces, since a message has a byte at least.
--
-- Not modelled: of the programs src/client/main.rs and src/server/main.rs the arguments, the logging,
-- the sockets and the mounting, which libraries do, and how the server's `main` ends when it cannot
-- accept a connection; the framed readers and writers of tokio-util, which call `encode` and
-- `decode` as it documents (`off_wire`); and the sending of a reply to a
-- client that is gone. The methods of `FsBackend` are taken as one step each: the server holds the lock on its file
-- system from the call to the last reply. Clients are there from the start, and one that connects
-- later is one whose session makes its first step later.
pub mod Base
pub mod Io
pub mod Protocol
pub mod Fs
pub mod Server
pub mod Client
pub mod Remote
mod Tests
