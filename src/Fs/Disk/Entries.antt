-- ===== src/Fs/Disk/Entries.antt =====
-- `read_dir`, `remove` and `rename` of src/core/fs/disk.rs, and `DiskFs` as an `FsBackend`.
use azpfs.Base.{ℕ, ◌==◌, Bool, true, false, Option, none, some, List, [], ◌∷◌, Bytes, if◌then◌else◌}
use azpfs.Io.{Outcome, ok, err}
use azpfs.Protocol.Codes.{FileType, directory, regular_file, file_type_code}
use azpfs.Protocol.DirEntry.{DirEntry}
use azpfs.Fs.Backend.{FsBackend}
use azpfs.Fs.Texts.{destination_is_dir, types_must_match}
use azpfs.Fs.Run.{Run, ◌>>=◌, ◌>>◌, lift, pure, attempt}
use azpfs.Fs.Paths.{push, parent}
use azpfs.Fs.Os.{Os}
use azpfs.Fs.Disk.{
  Fs, on_disk, ask_disk, on_map, insert_path, remove_path, get_path, lookup, get_attr, stats,
}
use azpfs.Fs.Disk.Files.{set_attr, create_file, create_dir, read, write}
use azpfs.Fs.Disk.Listing.{inode_or, directory_named, read_stream}

-- What `rename` refuses to replace.
unfoldable pub check_types : (dest_type self_type : FileType) → Outcome (Unit {0})
check_types directory self_type = err destination_is_dir
check_types regular_file self_type =
    if file_type_code self_type == 4 then ok tt else err types_must_match
check_types _ self_type = ok tt

module _ (os : Os) where
  abbrev pub parent_inode : ℕ → Option Bytes → Run (Fs os) ℕ
  parent_inode inode none = pure inode
  parent_inode inode (some path) = ask_disk os (λ d. inode_or inode (os.metadata path d))

  unfoldable pub read_dir : ℕ → Run (Fs os) (List DirEntry)
  unfolding get_path read_stream
  read_dir inode = do
    path ← get_path os inode
    stream ← ask_disk os (os.read_dir path)
    above ← parent_inode inode (parent path)
    lift (
        read_stream stream
          (directory_named inode (b'.' ∷ []) ∷ directory_named above (b'.' ∷ b'.' ∷ []) ∷ []))

  abbrev pub remove_at : Bytes → Bool → Run (Fs os) (Unit {0})
  remove_at path true = on_disk os (os.remove_dir_all path)
  remove_at path false = on_disk os (os.remove_file path)

  unfoldable pub remove : ℕ → Run (Fs os) (Unit {0})
  unfolding get_path
  remove inode = do
    path ← get_path os inode
    meta ← ask_disk os (os.metadata path)
    remove_at path meta.file_type.is_dir
    on_map os (remove_path inode)

  -- The `if let` of `rename`: what stands at the destination is removed.
  abbrev pub clear_destination : ℕ → Option ℕ → Run (Fs os) (Unit {0})
  clear_destination inode none = pure tt
  clear_destination inode (some dest_inode) = do
    dest ← get_attr os dest_inode
    self ← get_attr os inode
    lift (check_types dest.file_type self.file_type)
    remove dest_inode

  -- The rest of `rename`.
  abbrev pub move_entry : ℕ → ℕ → Bytes → Run (Fs os) (Unit {0})
  move_entry inode dest_parent_inode dest_filename = do
    old_path ← get_path os inode
    dest_dir ← get_path os dest_parent_inode
    let new_path = push dest_dir dest_filename
    on_disk os (os.rename old_path new_path)
    on_map os (insert_path inode new_path)

  unfoldable pub rename : ℕ → ℕ → Bytes → Run (Fs os) (Unit {0})
  rename inode dest_parent_inode dest_filename = do
    found ← attempt (lookup os dest_parent_inode dest_filename)
    clear_destination inode found
    move_entry inode dest_parent_inode dest_filename

  -- `impl FsBackend for DiskFs`
  abbrev pub disk_backend : FsBackend
  disk_backend = record {
    State = Fs os;
    lookup = lookup os;
    get_attr = get_attr os;
    set_attr = set_attr os;
    stats = stats os;
    create_file = create_file os;
    create_dir = create_dir os;
    read = read os;
    write = write os;
    read_dir = read_dir;
    remove = remove;
    rename = rename;
  }
