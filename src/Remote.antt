-- ===== src/Remote.antt =====
-- The client of src/core/fs/handler.rs against the server of src/core/server/handlers.rs: one call
-- over an open connection, and the file system that the calls make of the server's.
pub mod Transfer
pub mod Seen
pub mod Mirror
pub mod Link
pub mod Served
pub mod Started
pub mod Refines
pub mod Connected
pub mod Mounted
pub mod Handshake
use azpfs.Base.{ℕ, Bytes, List, [], ◌∷◌, Option, false}
use azpfs.Io.{Outcome, ok, err, panicked, blocked, IoError}
use azpfs.Protocol.Message.{Message, set_request_id}
use azpfs.Protocol.Reader.{ReadError}
use azpfs.Fs.Backend.{FsBackend}
use azpfs.Server.Handlers.{handle_msg}
use azpfs.Client.Replies.{Listener}
use azpfs.Client.Calls.{
  Call, lookup_call, get_attr_call, set_attr_call, stats_call, create_file_call, create_dir_call,
  read_call, write_call, read_dir_call, remove_call, rename_call,
}

-- What the listener of a request gets: the replies as they arrive. A handler that panicked or hangs
-- has sent none. The connection stays open, so the channel is not closed.
abbrev pub delivered : (List Message → List Message) → Outcome (List Message) → Listener
delivered order (ok replies) = record { messages = order replies; closes = false }
delivered order (err e) = record { messages = []; closes = false }
delivered order panicked = record { messages = []; closes = false }
delivered order blocked = record { messages = []; closes = false }

-- `order` is the order in which the replies to a request arrive.
module _ (fs : FsBackend) (order : List Message → List Message) (id : ℕ) where
  unfoldable pub perform {ℓ} : {A : Type ℓ} → Call A → fs.State → Outcome A × fs.State
  perform call s =
      let (r, s') = handle_msg fs (set_request_id id call.request) s in
      (call.reply (delivered order r), s')

  -- `ClientHandler` as a file system, on the state of the server's.
  abbrev pub remote : (ReadError → Bytes) → FsBackend
  remote describe = record {
    State = fs.State;
    lookup = λ dir name. perform (lookup_call dir name);
    get_attr = λ inode. perform (get_attr_call inode);
    set_attr =
        λ inode size at mt perms uid gid. perform (set_attr_call inode size at mt perms uid gid);
    stats = perform stats_call;
    create_file = λ dir perms flags name. perform (create_file_call dir perms flags name);
    create_dir = λ dir perms name. perform (create_dir_call dir perms name);
    read = λ inode offset len. perform (read_call inode offset len);
    write = λ inode offset content. perform (write_call inode offset content);
    read_dir = λ inode. perform (read_dir_call describe inode);
    remove = λ inode. perform (remove_call inode);
    rename = λ inode dir name. perform (rename_call inode dir name);
  }
