-- ===== src/Server/Handlers/Faults.antt =====
-- Requests of src/core/server/handlers.rs on which a handler comes to no reply.
use azpfs.Base.{ℕ, ◌^◌, ◌≤◌, ◌≡◌, Option, none, some, arith}
use azpfs.Io.{panicked}
use azpfs.Protocol.Message.{set_attr_req}
use azpfs.Fs.Attr.{from_unix}
use azpfs.Fs.Backend.{FsBackend}
use azpfs.Server.Handlers.{handle_msg, handle_set_attr, optional_time}

from_unix_overflow : (secs : ℕ) → 2 ^ 63 ≤ secs → from_unix secs ≡ panicked
unfolding from_unix
from_unix_overflow secs h = ground arith

-- A SET_ATTR whose access time, or with no access time its modification time, is 2 ^ 63 seconds or
-- more makes the
-- handler panic before it calls the file system: the file system stays as it is, and no reply is
-- sent, not even an error.
pub handle_msg-set_attr_overflow :
    (fs : FsBackend) (id inode secs : ℕ) (size mtime perms uid gid : Option ℕ) (s : fs.State)
    → 2 ^ 63 ≤ secs
    → (handle_msg fs (set_attr_req id inode size (some secs) mtime perms uid gid) s ≡ (panicked, s))
      × (handle_msg fs (set_attr_req id inode size none (some secs) perms uid gid) s
          ≡ (panicked, s))
unfolding handle_msg handle_set_attr optional_time
handle_msg-set_attr_overflow fs id inode secs size mtime perms uid gid s h =
    (rw (from_unix_overflow secs h), rw (from_unix_overflow secs h))
