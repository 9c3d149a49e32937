-- ===== src/Client/Calls.antt =====
-- The operations of `ClientHandler` in src/core/fs/handler.rs: each sends one request and waits for
-- the replies to it. `send_msg` puts the request id in the place of the 0.
use azpfs.Base.{ℕ, true, false, Option, Bytes, List}
use mathlib.Core.Option
use azpfs.Io.{other, Outcome, ok, err, blocked, ◌>>=◌}
use azpfs.Protocol.Message.{
  Message, lookup_req, get_attr_req, set_attr_req, stats_req, create_req, read_req, write_req,
  readdir_req, rm_req, move_req,
}
use azpfs.Protocol.Reader.{ReadError}
use azpfs.Protocol.DirEntry.{DirEntry, parsed, broken, stuck, parse_dir_entries}
use azpfs.Fs.Attr.{SystemTime, FileAttr, FsStats, to_unix}
use azpfs.Client.Replies.{Listener, await_success, await_inode, await_attr, await_stats}
use azpfs.Client.Combine.{combine_read_chunks}

-- The message that is sent, and what is done with the listener of its replies.
pub record Call {ℓ} (A : Type ℓ) : Type ℓ where
  pub request : Message
  pub reply : Listener → Outcome A

unfoldable pub lookup_call : ℕ → Bytes → Call ℕ
lookup_call dir_inode filename = record {
  request = lookup_req 0 dir_inode filename;
  reply = await_inode;
}

unfoldable pub get_attr_call : ℕ → Call FileAttr
get_attr_call inode = record { request = get_attr_req 0 inode; reply = await_attr }

unfoldable pub set_attr_call :
    ℕ
    → Option ℕ
    → Option SystemTime
    → Option SystemTime
    → Option ℕ
    → Option ℕ
    → Option ℕ
    → Call (Unit {0})
set_attr_call inode size atime mtime permissions uid gid = record {
  request =
      set_attr_req 0 inode size (Option.map to_unix atime) (Option.map to_unix mtime) permissions
        uid gid;
  reply = await_success;
}

unfoldable pub stats_call : Call FsStats
stats_call = record { request = stats_req 0; reply = await_stats }

unfoldable pub create_file_call : ℕ → ℕ → ℕ → Bytes → Call ℕ
create_file_call dir_inode permissions unix_flags filename = record {
  request = create_req 0 dir_inode permissions unix_flags false filename;
  reply = await_inode;
}

unfoldable pub create_dir_call : ℕ → ℕ → Bytes → Call ℕ
create_dir_call parent_inode permissions dir_name = record {
  request = create_req 0 parent_inode permissions 0 true dir_name;
  reply = await_inode;
}

unfoldable pub read_call : ℕ → ℕ → ℕ → Call Bytes
read_call inode offset len = record {
  request = read_req 0 inode offset len;
  reply = combine_read_chunks;
}

unfoldable pub write_call : ℕ → ℕ → Bytes → Call (Unit {0})
write_call inode offset content = record {
  request = write_req 0 inode offset content;
  reply = await_success;
}

-- The text that `binrw` gives for an error is not the program's: it is a parameter.
unfoldable pub entries_of : (ReadError → Bytes) → Bytes → Outcome (List DirEntry)
entries_of describe bytes = elim (parse_dir_entries bytes) [
  | parsed es ↦ ok es
  | broken e ↦ err (record { kind = other; text = describe e })
  | stuck ↦ blocked
]

unfoldable pub read_dir_call : (ReadError → Bytes) → ℕ → Call (List DirEntry)
unfolding entries_of
read_dir_call describe inode = record {
  request = readdir_req 0 inode;
  reply = λ l. combine_read_chunks l >>= entries_of describe;
}

unfoldable pub remove_call : ℕ → Call (Unit {0})
remove_call inode = record { request = rm_req 0 inode; reply = await_success }

unfoldable pub rename_call : ℕ → ℕ → Bytes → Call (Unit {0})
rename_call inode dest_dir_inode dest_filename = record {
  request = move_req 0 inode dest_dir_inode dest_filename;
  reply = await_success;
}
