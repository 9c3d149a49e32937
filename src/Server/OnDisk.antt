-- ===== src/Server/OnDisk.antt =====
-- `handle_msg` of src/core/server/handlers.rs over `DiskFs` of src/core/fs/disk.rs.
pub mod Confined
pub mod Inodes
use azpfs.Base.{ℕ, ◌≡◌, true, false, Option, some, Bytes}
use azpfs.Io.{Outcome, ok, err, panicked, blocked}
use azpfs.Protocol.Message.{
  Message, error, init_req, init_res, lookup_req, lookup_res, get_attr_req, file_attr_res,
  set_attr_req, success_res, stats_req, stats_res, create_req, read_req, read_res, write_req,
  readdir_req, rm_req, move_req,
}
use azpfs.Fs.Attr.{SystemTime}
use azpfs.Fs.Os.{Os}
use azpfs.Fs.Run.Laws.{Steps-at}
use azpfs.Fs.Disk.{Fs}
use azpfs.Fs.Disk.Entries.{disk_backend}
use azpfs.Fs.Disk.Mapping.{
  KnowsMore, lookup-KeepsPaths, get_attr-KeepsPaths, set_attr-KeepsPaths, create_file-KeepsPaths,
  create_dir-KeepsPaths, read-KeepsPaths, write-KeepsPaths, read_dir-KeepsPaths,
}
use azpfs.Server.Handlers.{handle_msg, handle_set_attr, optional_time}

-- A message other than a request to remove or to rename a file.
abbrev pub LeavesFiles : Message → Type 0
LeavesFiles (rm_req _ _) = ⊥
LeavesFiles (move_req _ _ _ _) = ⊥
LeavesFiles _ = Unit

module _ (os : Os) where
  handle_set_attr-paths :
      (id inode : ℕ) (size : Option ℕ) (atime mtime : Outcome (Option SystemTime))
      (perms uid gid : Option ℕ) (s : Fs os)
      → KnowsMore s (handle_set_attr (disk_backend os) id inode size atime mtime perms uid gid s).1
  unfolding handle_set_attr
  handle_set_attr-paths id inode size (ok a) (ok m) perms uid gid s =
      Steps-at (set_attr-KeepsPaths os inode size a m perms uid gid) s
  handle_set_attr-paths id inode size (ok a) (err _) perms uid gid s = λ i p h. h
  handle_set_attr-paths id inode size (ok a) panicked perms uid gid s = λ i p h. h
  handle_set_attr-paths id inode size (ok a) blocked perms uid gid s = λ i p h. h
  handle_set_attr-paths id inode size (err _) mtime perms uid gid s = λ i p h. h
  handle_set_attr-paths id inode size panicked mtime perms uid gid s = λ i p h. h
  handle_set_attr-paths id inode size blocked mtime perms uid gid s = λ i p h. h

  handle_msg-KnowsMore :
      (m : Message) (s : Fs os) → LeavesFiles m → KnowsMore s (handle_msg (disk_backend os) m s).1
  unfolding handle_msg
  handle_msg-KnowsMore (lookup_req _ dir name) s h = Steps-at (lookup-KeepsPaths os dir name) s
  handle_msg-KnowsMore (get_attr_req _ inode) s h = Steps-at (get_attr-KeepsPaths os inode) s
  handle_msg-KnowsMore (set_attr_req id inode size at mt perms uid gid) s h =
      handle_set_attr-paths id inode size (optional_time at) (optional_time mt) perms uid gid s
  handle_msg-KnowsMore (create_req _ dir perms flags true name) s h =
      Steps-at (create_dir-KeepsPaths os dir perms name) s
  handle_msg-KnowsMore (create_req _ dir perms flags false name) s h =
      Steps-at (create_file-KeepsPaths os dir perms flags name) s
  handle_msg-KnowsMore (read_req _ inode offset len) s h =
      Steps-at (read-KeepsPaths os inode offset len) s
  handle_msg-KnowsMore (write_req _ inode offset content) s h =
      Steps-at (write-KeepsPaths os inode offset content) s
  handle_msg-KnowsMore (readdir_req _ inode) s h = Steps-at (read_dir-KeepsPaths os inode) s
  handle_msg-KnowsMore (stats_req _) s h = λ i p e. e
  handle_msg-KnowsMore (rm_req _ _) s h = elim h [ ]
  handle_msg-KnowsMore (move_req _ _ _ _) s h = elim h [ ]
  handle_msg-KnowsMore (error _ _ _) s h = λ i p e. e
  handle_msg-KnowsMore (init_req _ _) s h = λ i p e. e
  handle_msg-KnowsMore (init_res _ _) s h = λ i p e. e
  handle_msg-KnowsMore (lookup_res _ _) s h = λ i p e. e
  handle_msg-KnowsMore (file_attr_res _ _ _ _ _ _ _ _ _ _ _ _ _) s h = λ i p e. e
  handle_msg-KnowsMore (success_res _) s h = λ i p e. e
  handle_msg-KnowsMore (stats_res _ _ _ _ _ _ _ _ _) s h = λ i p e. e
  handle_msg-KnowsMore (read_res _ _ _ _) s h = λ i p e. e

  -- Whatever a message other than RM_REQ and MOVE_REQ does, and however it ends, an inode that stood for
  -- a path stands for the same path afterwards.
  pub handle_msg-keeps_paths :
      (m : Message) (s : Fs os) (inode : ℕ) (path : Bytes)
      → LeavesFiles m
      → s.inode_map inode ≡ some path
      → (handle_msg (disk_backend os) m s).1.inode_map inode ≡ some path
  handle_msg-keeps_paths m s inode path h known = handle_msg-KnowsMore m s h inode path known
