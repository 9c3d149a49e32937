-- ===== src/Fs/Backend.antt =====
-- The trait `FsBackend` of src/core/fs/mod.rs: what the server asks of a file system, and what the
-- client offers to FUSE. A file name is its bytes.
use azpfs.Base.{ℕ, Bytes, List, Option}
use azpfs.Io.{Outcome}
use azpfs.Fs.Attr.{SystemTime, FileAttr, FsStats}
use azpfs.Protocol.DirEntry.{DirEntry}

pub record FsBackend : Type 1 where
  pub State : Type 0
  pub lookup : (parent_inode : ℕ) (filename : Bytes) → State → Outcome ℕ × State
  pub get_attr : (inode : ℕ) → State → Outcome FileAttr × State
  pub set_attr :
      (inode : ℕ) (size : Option ℕ) (atime mtime : Option SystemTime)
      (permissions uid gid : Option ℕ)
      → State
      → Outcome (Unit {0}) × State
  pub stats : State → Outcome FsStats × State
  pub create_file :
      (parent_inode perms unix_flags : ℕ) (filename : Bytes) → State → Outcome ℕ × State
  pub create_dir : (parent_inode permissions : ℕ) (dir_name : Bytes) → State → Outcome ℕ × State
  pub read : (inode offset len : ℕ) → State → Outcome Bytes × State
  pub write : (inode offset : ℕ) (content : Bytes) → State → Outcome (Unit {0}) × State
  pub read_dir : (inode : ℕ) → State → Outcome (List DirEntry) × State
  pub remove : (inode : ℕ) → State → Outcome (Unit {0}) × State
  pub rename :
      (inode dest_parent_inode : ℕ) (dest_filename : Bytes) → State → Outcome (Unit {0}) × State
