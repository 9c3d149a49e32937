-- ===== src/Server/OnDisk/Confined.antt =====
-- The server of src/server/main.rs over `DiskFs` of src/core/fs/disk.rs, in a sandbox of the operating
-- system.
pub mod Runs
use mathlib.Core.Path.{subst}
use azpfs.Base.{
  ℕ, ◌≡◌, refl, sym, ap, true, false, Option, List, [], ◌∷◌, ◌++◌, Bytes, Bool, All,
  All-append_left, All-append_right, All-perm,
}
use azpfs.Io.{Outcome, ok, err, panicked, blocked}
use azpfs.Protocol.Message.{
  Message, error, init_req, init_res, lookup_req, lookup_res, get_attr_req, file_attr_res,
  set_attr_req, success_res, stats_req, stats_res, create_req, read_req, read_res, write_req,
  readdir_req, rm_req, move_req,
}
use azpfs.Fs.Attr.{SystemTime, attr_into_message, stats_into_message}
use azpfs.Fs.Os.{Os}
use azpfs.Fs.Run.{Run}
use azpfs.Fs.Run.Agree.{Agree-at}
use azpfs.Fs.Paths.Below.{IsPlain}
use azpfs.Fs.Disk.{Fs}
use azpfs.Fs.Disk.Entries.{disk_backend}
use azpfs.Fs.Disk.Confined.{
  IsClosed, sandbox, StaysInside, IsConfined, Any, lookup-IsConfined, get_attr-IsConfined,
  create_file-IsConfined, create_dir-IsConfined, read-IsConfined, write-IsConfined,
}
use azpfs.Fs.Disk.Confined.Entries.{
  stats-IsConfined, set_attr-IsConfined, read_dir-IsConfined, remove-IsConfined, rename-IsConfined,
}
use azpfs.Server.Handlers.{handle_msg, handle_set_attr, optional_time, reply_with}
use azpfs.Server.Chunks.{assemble_read_res_chunks}
use azpfs.Protocol.DirEntry.{serialize_dir_entires}

-- The names in a message are without slashes, and not `..`.
abbrev pub HasPlainNames : Message → Type 0
HasPlainNames (lookup_req _ _ name) = IsPlain name
HasPlainNames (create_req _ _ _ _ _ name) = IsPlain name
HasPlainNames (move_req _ _ _ name) = IsPlain name
HasPlainNames _ = Unit

module _ {inside visible : Bytes → Bool} (closed : IsClosed inside visible) (os : Os) where
  -- A message does the same in the sandbox, and the known paths stay inside.
  abbrev pub IsSame : (Outcome (List Message) × Fs os) → (Outcome (List Message) × Fs os) → Type 0
  IsSame q q' = (q ≡ q') × StaysInside closed os q.1

  answered {κ} :
      {A : Type κ} {m m' : Run (Fs os) A} (id : ℕ) (make : A → List Message)
      → IsConfined closed os Any m m'
      → (s : Fs os) → StaysInside closed os s
      → IsSame (reply_with id make (m s).0, (m s).1) (reply_with id make (m' s).0, (m' s).1)
  answered id make h s v =
      let (same, keeps, _) = Agree-at h s v in (ap (λ q. (reply_with id make q.0, q.1)) same, keeps)

  handle_set_attr-confined :
      (id inode : ℕ) (size : Option ℕ) (atime mtime : Outcome (Option SystemTime))
      (perms uid gid : Option ℕ) (s : Fs os)
      → StaysInside closed os s
      → IsSame (handle_set_attr (disk_backend os) id inode size atime mtime perms uid gid s) (
          handle_set_attr
            (disk_backend (sandbox closed os))
            id
            inode
            size
            atime
            mtime
            perms
            uid
            gid
            s)
  unfolding handle_set_attr
  handle_set_attr-confined id inode size (ok a) (ok m) perms uid gid s v =
      answered id (λ _. success_res id ∷ [])
        (set_attr-IsConfined closed os inode size a m perms uid gid) s v
  handle_set_attr-confined id inode size (ok a) (err _) perms uid gid s v = (refl, v)
  handle_set_attr-confined id inode size (ok a) panicked perms uid gid s v = (refl, v)
  handle_set_attr-confined id inode size (ok a) blocked perms uid gid s v = (refl, v)
  handle_set_attr-confined id inode size (err _) mtime perms uid gid s v = (refl, v)
  handle_set_attr-confined id inode size panicked mtime perms uid gid s v = (refl, v)
  handle_set_attr-confined id inode size blocked mtime perms uid gid s v = (refl, v)

  pub handle_msg-confined :
      (m : Message) (s : Fs os)
      → HasPlainNames m
      → StaysInside closed os s
      → IsSame
          (handle_msg (disk_backend os) m s)
          (handle_msg (disk_backend (sandbox closed os)) m s)
  unfolding handle_msg
  handle_msg-confined (lookup_req id dir name) s h v =
      answered id (λ inode. lookup_res id inode ∷ []) (lookup-IsConfined closed os dir name h) s v
  handle_msg-confined (get_attr_req id inode) s h v =
      answered id (λ attr. attr_into_message attr id ∷ []) (get_attr-IsConfined closed os inode) s v
  handle_msg-confined (set_attr_req id inode size at mt perms uid gid) s h v =
      handle_set_attr-confined id inode size (optional_time at) (optional_time mt) perms uid gid s v
  handle_msg-confined (create_req id dir perms flags true name) s h v =
      answered id (λ inode. lookup_res id inode ∷ [])
        (create_dir-IsConfined closed os dir perms name h) s v
  handle_msg-confined (create_req id dir perms flags false name) s h v =
      answered id (λ inode. lookup_res id inode ∷ [])
        (create_file-IsConfined closed os dir perms flags name h) s v
  handle_msg-confined (read_req id inode offset len) s h v =
      answered id (assemble_read_res_chunks id) (read-IsConfined closed os inode offset len) s v
  handle_msg-confined (write_req id inode offset content) s h v =
      answered id (λ _. success_res id ∷ []) (write-IsConfined closed os inode offset content) s v
  handle_msg-confined (readdir_req id inode) s h v =
      answered id (λ es. assemble_read_res_chunks id (serialize_dir_entires es))
        (read_dir-IsConfined closed os inode) s v
  handle_msg-confined (stats_req id) s h v =
      answered id (λ x. stats_into_message x id ∷ []) (stats-IsConfined closed os) s v
  handle_msg-confined (rm_req id inode) s h v =
      answered id (λ _. success_res id ∷ []) (remove-IsConfined closed os inode) s v
  handle_msg-confined (move_req id inode dir name) s h v =
      answered id (λ _. success_res id ∷ []) (rename-IsConfined closed os inode dir name h) s v
  handle_msg-confined (error _ _ _) s h v = (refl, v)
  handle_msg-confined (init_req _ _) s h v = (refl, v)
  handle_msg-confined (init_res _ _) s h v = (refl, v)
  handle_msg-confined (lookup_res _ _) s h v = (refl, v)
  handle_msg-confined (file_attr_res _ _ _ _ _ _ _ _ _ _ _ _ _) s h v = (refl, v)
  handle_msg-confined (success_res _) s h v = (refl, v)
  handle_msg-confined (stats_res _ _ _ _ _ _ _ _ _) s h v = (refl, v)
  handle_msg-confined (read_res _ _ _ _) s h v = (refl, v)
