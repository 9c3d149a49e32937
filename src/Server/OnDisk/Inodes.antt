-- ===== src/Server/OnDisk/Inodes.antt =====
-- The inodes that `handle_msg` of src/core/server/handlers.rs gives out over `DiskFs` of
-- src/core/fs/disk.rs.
use mathlib.Core.Path.{subst}
use azpfs.Base.{
  Bool, ℕ, ◌≡◌, refl, Bytes, Option, none, some, List, [], ◌∷◌, All, true, false, arith,
}
use azpfs.Io.{Outcome, ok, err, panicked, blocked, OfValue}
use azpfs.Protocol.Message.{Message, request_id, lookup_req, lookup_res, create_req}
use azpfs.Protocol.Errors.{from_error}
use azpfs.Fs.Os.{Os}
use azpfs.Fs.Run.{Run, ◌>>=◌, pure}
use azpfs.Fs.Run.Laws.{Ensures, ensures, Ensures-at, >>=-Ensures}
use azpfs.Fs.Paths.{push}
use azpfs.Fs.Disk.{Fs, DiskFs, InodeMap, insert_if_new, get_path, ask_disk, on_disk, on_map, lookup}
use azpfs.Fs.Disk.Files.{create_file, create_dir}
use azpfs.Fs.Disk.Entries.{disk_backend}
use azpfs.Server.Handlers.{handle_msg, reply_with}
use azpfs.Server.Clients.Serial.{state_after}
use azpfs.Server.OnDisk.{LeavesFiles, handle_msg-keeps_paths}

-- A message that asks for an inode.
pub data AsksInode : Message → Type 0 where
  looks_up : {id dir : ℕ} {name : Bytes} → AsksInode (lookup_req id dir name)
  creates :
      {id dir perms flags : ℕ} {is_directory : Bool} {name : Bytes}
      → AsksInode (create_req id dir perms flags is_directory name)

abbrev pub IsKnown : {D : Type 0} → ℕ → DiskFs D → Type 0
IsKnown inode s = (path : Bytes) × (s.inode_map inode ≡ some path)

insert_if_new-known :
    (inode : ℕ) (path : Bytes) (m : InodeMap)
    → (p : Bytes) × (insert_if_new inode path m inode ≡ some p)
insert_if_new-known inode path m = known (m inode) refl
  where
    known :
        (o : Option Bytes) → m inode ≡ o → (p : Bytes) × (insert_if_new inode path m inode ≡ some p)
    known none e = (path, ground arith)
    known (some p) e = (p, ground arith)

module _ (os : Os) where
  GivesKnown : Run (Fs os) ℕ → Type 0
  GivesKnown m = Ensures {S = Fs os} IsKnown m

  learned :
      (inode : ℕ) (path : Bytes)
      → GivesKnown (on_map os (insert_if_new inode path) >>= λ _. pure inode)
  unfolding GivesKnown
  learned inode path = ensures λ s. insert_if_new-known inode path s.inode_map

  lookup-GivesKnown : (dir : ℕ) (name : Bytes) → GivesKnown (lookup os dir name)
  unfolding GivesKnown lookup
  lookup-GivesKnown dir name = >>=-Ensures (get_path os dir) λ path.
      >>=-Ensures (ask_disk os (os.metadata (push path name)))
        λ meta. learned meta.ino (push path name)

  create_file-GivesKnown :
      (dir perms flags : ℕ) (name : Bytes) → GivesKnown (create_file os dir perms flags name)
  unfolding GivesKnown create_file
  create_file-GivesKnown dir perms flags name = >>=-Ensures (get_path os dir) λ path.
      >>=-Ensures (on_disk os (os.open_file _ (push path name))) λ file.
        >>=-Ensures (on_disk os (os.set_permissions (push path name) perms)) λ _.
          >>=-Ensures (ask_disk os (os.file_metadata file))
            λ meta. learned meta.ino (push path name)

  create_dir-GivesKnown : (dir perms : ℕ) (name : Bytes) → GivesKnown (create_dir os dir perms name)
  unfolding GivesKnown create_dir
  create_dir-GivesKnown dir perms name = >>=-Ensures (get_path os dir) λ path.
      >>=-Ensures (on_disk os (os.create_dir (push path name))) λ _.
        >>=-Ensures (on_disk os (os.set_permissions (push path name) perms)) λ _.
          >>=-Ensures (ask_disk os (os.metadata (push path name)))
            λ meta. learned meta.ino (push path name)

  -- The reply to a message that asks for an inode gives one that is known.
  reply-IsKnown :
      (id inode : ℕ) (m : Run (Fs os) ℕ)
      → GivesKnown m
      → (s : Fs os)
      → reply_with id (λ i. lookup_res id i ∷ []) (m s).0 ≡ ok (lookup_res id inode ∷ [])
      → IsKnown inode (m s).1
  unfolding GivesKnown reply_with from_error
  reply-IsKnown id inode m h s e = known (m s).0 e (Ensures-at h s)
    where
      known :
          (r : Outcome ℕ)
          → reply_with id (λ i. lookup_res id i ∷ []) r ≡ ok (lookup_res id inode ∷ [])
          → OfValue (λ i. IsKnown i (m s).1) r
          → IsKnown inode (m s).1
      known (ok i) e k = let same : i ≡ inode = cc in subst (λ x. IsKnown x (m s).1) same k
      known (err _) e k = cc
      known panicked e k = cc
      known blocked e k = cc

  answered-IsKnown :
      (m : Message) (s : Fs os) (inode : ℕ)
      → AsksInode m
      → (handle_msg (disk_backend os) m s).0 ≡ ok (lookup_res (request_id m) inode ∷ [])
      → IsKnown inode (handle_msg (disk_backend os) m s).1
  unfolding handle_msg request_id
  answered-IsKnown _ s inode (looks_up {id} {dir} {name}) e =
      reply-IsKnown id inode (lookup os dir name) (lookup-GivesKnown dir name) s e
  answered-IsKnown _ s inode (creates {id} {dir} {perms} {flags} {is_directory = true} {name}) e =
      reply-IsKnown id inode (create_dir os dir perms name) (create_dir-GivesKnown dir perms name) s
        e
  answered-IsKnown _ s inode (creates {id} {dir} {perms} {flags} {is_directory = false} {name}) e =
      reply-IsKnown id inode (create_file os dir perms flags name)
        (create_file-GivesKnown dir perms flags name) s e

  -- Messages other than RM_REQ and MOVE_REQ, one after another, leave a known inode its path.
  state_after-keeps_paths :
      (later : List (ℕ × Message)) (s : Fs os) (inode : ℕ) (path : Bytes)
      → All (λ h. LeavesFiles h.1) later
      → s.inode_map inode ≡ some path
      → (state_after (disk_backend os) later s).inode_map inode ≡ some path
  unfolding state_after
  state_after-keeps_paths [] s inode path h e = e
  state_after-keeps_paths ((j, m) ∷ later) s inode path h e =
      handle_msg-keeps_paths os m (state_after (disk_backend os) later s) inode path h.0
        (state_after-keeps_paths later s inode path h.1 e)

  -- The inode with which the server answers a LOOKUP_REQ or a CREATE_REQ stands for a path, and stands for the
  -- same path after whatever other messages, if none of them is an RM_REQ or a MOVE_REQ.
  pub given_inode-IsKnown :
      (m : Message) (s : Fs os) (inode : ℕ) (later : List (ℕ × Message))
      → AsksInode m
      → (handle_msg (disk_backend os) m s).0 ≡ ok (lookup_res (request_id m) inode ∷ [])
      → All (λ h. LeavesFiles h.1) later
      → (path : Bytes) × ((handle_msg (disk_backend os) m s).1.inode_map inode ≡ some path)
        × ((state_after (disk_backend os) later (handle_msg (disk_backend os) m s).1).inode_map
              inode
            ≡ some path)
  given_inode-IsKnown m s inode later asks given leaves =
      let (path, known) = answered-IsKnown m s inode asks given in
      (
        path,
        known,
        state_after-keeps_paths later (handle_msg (disk_backend os) m s).1 inode path leaves known,
      )
