-- ===== src/Fs/Disk.antt =====
-- `DiskFs` of src/core/fs/disk.rs: the file system below a directory, addressed by the inodes that
-- were looked up before, over the file system of the operating system.
pub mod Files
pub mod Listing
pub mod Entries
pub mod Mapping
pub mod Renaming
pub mod Resolution
pub mod Confined
use azpfs.Base.{
  ℕ, ◌==◌, ◌/◌, ◌%◌, ◌^◌, Bool, true, false, ◌&&◌, ◌||◌, not, Option, none, some, List, [], ◌∷◌,
  ◌++◌, Bytes, ltb, if◌then◌else◌,
}
use azpfs.Io.{Outcome, ok, err, panicked}
use azpfs.Protocol.Codes.{
  FileType, pipe, char_device, block_device, directory, regular_file, symlink, socket,
  file_type_code,
}
use azpfs.Protocol.DirEntry.{DirEntry}
use azpfs.Fs.Attr.{SystemTime, from_unix, FileAttr, FsStats}
use azpfs.Fs.Backend.{FsBackend}
use azpfs.Fs.Texts.{inode_not_found, no_stats, destination_is_dir, types_must_match}
use azpfs.Fs.Run.{Run, ◌>>=◌, ◌>>◌, lift, pure, attempt}
use azpfs.Fs.Paths.{push, parent}
use azpfs.Fs.Os.{Os, StdFileType, Metadata, OpenOptions, StreamEntry}

-- `ROOT_INODE` of src/core/mod.rs
abbrev pub root_inode : ℕ
root_inode = 1

-- Inode numbers to paths, a `HashMap<u64, PathBuf>`.
abbrev pub InodeMap : Type 0
InodeMap = ℕ → Option Bytes

abbrev pub insert_path : ℕ → Bytes → InodeMap → InodeMap
insert_path inode path m i = if i == inode then some path else m i

abbrev pub remove_path : ℕ → InodeMap → InodeMap
remove_path inode m i = if i == inode then none else m i

-- `entry(inode).or_insert(path)`
abbrev pub insert_if_new : ℕ → Bytes → InodeMap → InodeMap
insert_if_new inode path m = elim (m inode) [ none ↦ insert_path inode path m | some _ ↦ m ]

-- `DiskFs` with the state of the disk it stands on.
pub record DiskFs (D : Type 0) : Type 0 where
  pub inode_map : InodeMap
  pub disk : D

-- `FileType::from(fs::FileType)` of src/core/fs/mod.rs
unfoldable pub from_std : StdFileType → Outcome FileType
from_std t =
    if t.is_fifo
    then ok pipe
    else if t.is_char_device
    then ok char_device
    else if t.is_block_device
    then ok block_device
    else if t.is_dir
    then ok directory
    else if t.is_file
    then ok regular_file
    else if t.is_symlink
    then ok symlink
    else if t.is_socket
    then ok socket
    else panicked

-- `u & (1 << k) != 0`
abbrev pub has_bit : ℕ → ℕ → Bool
has_bit u k = u / 2 ^ k % 2 == 1

abbrev pub write_only : OpenOptions
write_only = record {
  read = false;
  write = true;
  create = false;
  create_new = false;
  truncate = false;
}

abbrev pub read_only : OpenOptions
read_only = record write_only { read = true; write = false }

module _ (os : Os) where
  -- What the operations do is a run on this state.
  abbrev pub Fs : Type 0
  Fs = DiskFs os.State

  abbrev pub on_disk {ℓ} : {A : Type ℓ} → (os.State → Outcome A × os.State) → Run Fs A
  on_disk f s = let (r, d) = f s.disk in (r, record s { disk = d })

  abbrev pub ask_disk {ℓ} : {A : Type ℓ} → (os.State → Outcome A) → Run Fs A
  ask_disk f s = (f s.disk, s)

  abbrev pub on_map : (InodeMap → InodeMap) → Run Fs (Unit {0})
  on_map f s = (ok tt, record s { inode_map = f s.inode_map })

  abbrev pub path_of : Option Bytes → Outcome Bytes
  path_of (some path) = ok path
  path_of none = err inode_not_found

  unfoldable pub get_path : ℕ → Run Fs Bytes
  get_path inode s = (path_of (s.inode_map inode), s)

  unfoldable pub lookup : ℕ → Bytes → Run Fs ℕ
  unfolding get_path
  lookup dir_inode filename = do
    dir ← get_path dir_inode
    let path = push dir filename
    meta ← ask_disk (os.metadata path)
    on_map (insert_if_new meta.ino path)
    pure meta.ino

  unfoldable pub get_attr : ℕ → Run Fs FileAttr
  unfolding get_path from_std
  get_attr inode = do
    path ← get_path inode
    meta ← ask_disk (os.metadata path)
    file_type ← lift (from_std meta.file_type)
    access_time ← lift meta.accessed
    modification_time ← lift meta.modified
    change_time ← lift (from_unix meta.ctime)
    pure (record {
      file_type = file_type;
      size = meta.len;
      blocks = meta.blocks;
      access_time = access_time;
      modification_time = modification_time;
      change_time = change_time;
      permissions = meta.mode % 2 ^ 16;
      n_hard_links = meta.nlink % 2 ^ 32;
      uid = meta.uid;
      gid = meta.gid;
      rdev = meta.rdev % 2 ^ 32;
      block_size = meta.blksize % 2 ^ 32;
    })

  abbrev pub stats : Run Fs FsStats
  stats s = (err no_stats, s)

-- `DiskFs::new`: only the root is known.
abbrev pub disk_fs : {D : Type 0} → Bytes → D → DiskFs D
disk_fs root d = record { inode_map = insert_path root_inode root (λ _. none); disk = d }
