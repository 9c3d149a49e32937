-- ===== src/Server/Handlers.antt =====
-- `handle_msg` of src/core/server/handlers.rs: what one message does to the file system, and the
-- messages that are sent for it. The chunks of a READ reply are sent by tasks of their own, so the
-- client may get them in any order.
pub mod Faults
pub mod Replies
pub mod Typed
pub mod Sendable
use azpfs.Base.{Bytes, ℕ, ◌==◌, Bool, true, false, Option, none, some, List, [], ◌∷◌, if◌then◌else◌}
use azpfs.Io.{Outcome, ok, err, panicked, blocked, ◌>>=◌, map_outcome}
use azpfs.Protocol.Message.{
  Message, error, init_req, init_res, lookup_req, lookup_res, get_attr_req, set_attr_req,
  success_res, stats_req, create_req, read_req, write_req, readdir_req, rm_req, move_req,
}
use azpfs.Protocol.Errors.{from_error}
use azpfs.Protocol.DirEntry.{serialize_dir_entires}
use azpfs.Fs.Attr.{SystemTime, from_unix, attr_into_message, stats_into_message}
use azpfs.Fs.Backend.{FsBackend}
use azpfs.Server.Chunks.{assemble_read_res_chunks}

-- `match … { Ok(a) => …, Err(e) => Message::from_error(request_id, e) }`. Where the call panics or
-- never returns, nothing is sent.
unfoldable pub reply_with {ℓ} :
    {A : Type ℓ} → ℕ → (A → List Message) → Outcome A → Outcome (List Message)
reply_with id make (ok a) = ok (make a)
reply_with id make (err e) = ok (from_error id e ∷ [])
reply_with id make panicked = panicked
reply_with id make blocked = blocked

-- `atime.map(|x| from_unix(x))`
unfoldable pub optional_time : Option ℕ → Outcome (Option SystemTime)
optional_time none = ok none
optional_time (some secs) = map_outcome some (from_unix secs)

module _ (fs : FsBackend) where
  -- The SET_ATTR arm, where both times are converted before the file system is locked.
  unfoldable pub handle_set_attr :
      (id inode : ℕ) (size : Option ℕ) (atime mtime : Outcome (Option SystemTime))
      (permissions uid gid : Option ℕ)
      → fs.State
      → Outcome (List Message) × fs.State
  handle_set_attr id inode size (ok atime) (ok mtime) perms uid gid s =
      let (r, s') = fs.set_attr inode size atime mtime perms uid gid s in
      (reply_with id (λ _. success_res id ∷ []) r, s')
  handle_set_attr id inode size (ok atime) _ perms uid gid s = (panicked, s)
  handle_set_attr id inode size _ mtime perms uid gid s = (panicked, s)

  -- The CREATE arm.
  unfoldable pub handle_create :
      (id dir_inode perms unix_flags : ℕ) (is_directory : Bool) (filename : Bytes)
      → fs.State
      → Outcome (List Message) × fs.State
  unfolding reply_with
  handle_create id dir_inode perms unix_flags is_directory filename s =
      let (r, s') =
        if is_directory
        then fs.create_dir dir_inode perms filename s
        else fs.create_file dir_inode perms unix_flags filename s in
      (reply_with id (λ inode. lookup_res id inode ∷ []) r, s')

  -- The READ arm.
  unfoldable pub handle_read :
      (id inode offset len : ℕ) → fs.State → Outcome (List Message) × fs.State
  unfolding reply_with
  handle_read id inode offset len s =
      let (r, s') = fs.read inode offset len s in
      (reply_with id (assemble_read_res_chunks id) r, s')

  -- The READDIR arm.
  unfoldable pub handle_readdir : (id inode : ℕ) → fs.State → Outcome (List Message) × fs.State
  unfolding reply_with
  handle_readdir id inode s =
      let (r, s') = fs.read_dir inode s in
      (reply_with id (λ es. assemble_read_res_chunks id (serialize_dir_entires es)) r, s')

  -- The WRITE arm.
  unfoldable pub handle_write :
      (id inode offset : ℕ) (content : Bytes) → fs.State → Outcome (List Message) × fs.State
  unfolding reply_with
  handle_write id inode offset content s =
      let (r, s') = fs.write inode offset content s in
      (reply_with id (λ _. success_res id ∷ []) r, s')

  -- The RM arm.
  unfoldable pub handle_rm : (id inode : ℕ) → fs.State → Outcome (List Message) × fs.State
  unfolding reply_with
  handle_rm id inode s =
      let (r, s') = fs.remove inode s in (reply_with id (λ _. success_res id ∷ []) r, s')

  -- The MOVE arm.
  unfoldable pub handle_move :
      (id inode dest_dir_inode : ℕ) (dest_filename : Bytes)
      → fs.State
      → Outcome (List Message) × fs.State
  unfolding reply_with
  handle_move id inode dest_dir_inode dest_filename s =
      let (r, s') = fs.rename inode dest_dir_inode dest_filename s in
      (reply_with id (λ _. success_res id ∷ []) r, s')

  unfoldable pub handle_msg : Message → fs.State → Outcome (List Message) × fs.State
  unfolding reply_with optional_time handle_set_attr handle_create handle_read handle_readdir
      handle_write handle_rm handle_move
  handle_msg (init_req id version) s = (ok (init_res id (version == 0) ∷ []), s)
  handle_msg (lookup_req id dir_inode filename) s =
      let (r, s') = fs.lookup dir_inode filename s in
      (reply_with id (λ inode. lookup_res id inode ∷ []) r, s')
  handle_msg (get_attr_req id inode) s =
      let (r, s') = fs.get_attr inode s in
      (reply_with id (λ attr. attr_into_message attr id ∷ []) r, s')
  handle_msg (set_attr_req id inode size atime mtime perms uid gid) s =
      handle_set_attr id inode size (optional_time atime) (optional_time mtime) perms uid gid s
  handle_msg (stats_req id) s =
      let (r, s') = fs.stats s in (reply_with id (λ stats. stats_into_message stats id ∷ []) r, s')
  handle_msg (create_req id dir_inode perms unix_flags is_directory filename) s =
      handle_create id dir_inode perms unix_flags is_directory filename s
  handle_msg (read_req id inode offset len) s = handle_read id inode offset len s
  handle_msg (write_req id inode offset content) s = handle_write id inode offset content s
  handle_msg (readdir_req id inode) s = handle_readdir id inode s
  handle_msg (rm_req id inode) s = handle_rm id inode s
  handle_msg (move_req id inode dest_dir_inode dest_filename) s =
      handle_move id inode dest_dir_inode dest_filename s
  handle_msg _ s = (ok [], s)
