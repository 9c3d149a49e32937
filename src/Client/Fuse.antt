-- ===== src/Client/Fuse.antt =====
-- The FUSE front end of src/core/client/fuse.rs: what `FUSEFilesystem` makes of a call of the kernel,
-- over any `FsBackend`, and what it hands to `fuser` as the reply.
pub mod Operations
pub mod Listing
pub mod Locking
pub mod Removing
use azpfs.Base.{
  ℕ, suc, ◌+◌, ◌%◌, ◌^◌, Bool, true, false, Option, none, some, List, [], ◌∷◌, ◌++◌, Bytes, length,
  drop, if◌then◌else◌,
}
use azpfs.Io.{
  ErrorKind, not_found, permission_denied, already_exists, invalid_input, IoError, Outcome, ok, err,
  panicked, blocked,
}
use azpfs.Protocol.Codes.{FileType}
use azpfs.Protocol.DirEntry.{DirEntry}
use azpfs.Fs.Attr.{SystemTime, after, FileAttr, FsStats}
use azpfs.Fs.Backend.{FsBackend}
use azpfs.Fs.Run.{Run, ◌>>=◌, ◌>>◌, pure}

-- The numbers of libc that the file names.
pub data Errno : Type 0 where
  enoent eacces eexist einval eio : Errno

-- `fuser::FileType`
pub data FuserFileType : Type 0 where
  named_pipe char_device block_device directory regular_file symlink socket : FuserFileType

-- `fuser::FileAttr`
pub record FuserAttr : Type 0 where
  pub ino : ℕ
  pub size : ℕ
  pub blocks : ℕ
  pub atime : SystemTime
  pub mtime : SystemTime
  pub ctime : SystemTime
  pub crtime : SystemTime
  pub kind : FuserFileType
  pub perm : ℕ
  pub nlink : ℕ
  pub uid : ℕ
  pub gid : ℕ
  pub rdev : ℕ
  pub blksize : ℕ
  pub flags : ℕ

-- `fuser::TimeOrNow`
pub data TimeOrNow : Type 0 where
  now : TimeOrNow
  specific_time : SystemTime → TimeOrNow

-- An entry of a `ReplyDirectory`: `offset` is what the kernel asks with to go on behind it.
pub record Listed : Type 0 where
  pub ino : ℕ
  pub offset : ℕ
  pub kind : FuserFileType
  pub name : Bytes

-- The reply that a method gives. `unsent` is a `ReplyDirectory` that is dropped after these entries
-- were added, without `ok` or `error`.
pub data Reply : Type 0 where
  entry : (ttl : ℕ) → FuserAttr → (generation : ℕ) → Reply
  attr : (ttl : ℕ) → FuserAttr → Reply
  done : Reply
  error : Errno → Reply
  content : Bytes → Reply
  written : ℕ → Reply
  listing unsent : List Listed → Reply
  created : (ttl : ℕ) → FuserAttr → (generation fh flags : ℕ) → Reply
  statfs : (blocks bfree bavail files ffree bsize namelen frsize : ℕ) → Reply

-- `From<FileType> for fuser::FileType` of src/core/fs/mod.rs
unfoldable pub fuser_type_of : FileType → FuserFileType
fuser_type_of FileType.pipe = FuserFileType.named_pipe
fuser_type_of FileType.char_device = FuserFileType.char_device
fuser_type_of FileType.block_device = FuserFileType.block_device
fuser_type_of FileType.directory = FuserFileType.directory
fuser_type_of FileType.regular_file = FuserFileType.regular_file
fuser_type_of FileType.symlink = FuserFileType.symlink
fuser_type_of FileType.socket = FuserFileType.socket

unfoldable pub to_fuser_attr : ℕ → FileAttr → FuserAttr
unfolding fuser_type_of
to_fuser_attr ino a = record {
  ino = ino;
  size = a.size;
  blocks = a.blocks;
  atime = a.access_time;
  mtime = a.modification_time;
  ctime = a.change_time;
  crtime = after 0;
  kind = fuser_type_of a.file_type;
  perm = a.permissions;
  nlink = a.n_hard_links;
  uid = a.uid;
  gid = a.gid;
  rdev = a.rdev;
  blksize = a.block_size;
  flags = 0;
}

abbrev errno_of_kind : ErrorKind → Errno
errno_of_kind not_found = enoent
errno_of_kind permission_denied = eacces
errno_of_kind already_exists = eexist
errno_of_kind invalid_input = einval
errno_of_kind _ = eio

unfoldable pub io_to_errno : IoError → Errno
io_to_errno e = errno_of_kind e.kind

-- `clock` is what `SystemTime::now()` gives at the call.
unfoldable pub resolve_time : (clock : SystemTime) → Option TimeOrNow → Option SystemTime
resolve_time clock (some now) = some clock
resolve_time clock (some (specific_time t)) = some t
resolve_time clock none = none

abbrev pub ttl : ℕ
ttl = 0

-- The `std::sync::Mutex` round the backend. A panic under the lock poisons it, and a call that never
-- returns never gives it back.
pub data Mutex : Type 0 where
  free poisoned held : Mutex

-- `FUSEFilesystem` over a backend with the states `S`.
pub record FuseFilesystem (S : Type 0) : Type 0 where
  pub lock : Mutex
  pub backend : S

-- `FUSEFilesystem::new`
abbrev pub new_filesystem : {S : Type 0} → S → FuseFilesystem S
new_filesystem s = record { lock = free; backend = s }

-- How the call under the lock leaves it.
abbrev pub left_by {ℓ} : {A : Type ℓ} → Outcome A → Mutex
left_by (ok a) = free
left_by (err e) = free
left_by panicked = poisoned
left_by blocked = held

-- `self.async_rt.block_on(async { … self.backend.lock().unwrap() … })`
unfoldable pub with_backend {ℓ} : {S : Type 0} {A : Type ℓ} → Run S A → Run (FuseFilesystem S) A
with_backend op s = elim s.lock [
  | free ↦ let (r, b) = op s.backend in (r, record { lock = left_by r; backend = b })
  | poisoned ↦ (panicked, s)
  | held ↦ (blocked, s)
]

-- `match … { Ok(a) => …, Err(e) => reply.error(io_to_errno(&e)) }`
unfoldable pub answer_with {ℓ} : {A : Type ℓ} → (A → Reply) → Outcome A → Outcome Reply
unfolding io_to_errno
answer_with make (ok a) = ok (make a)
answer_with make (err e) = ok (error (io_to_errno e))
answer_with make panicked = panicked
answer_with make blocked = blocked

abbrev pub replying {ℓ} :
    {S : Type 0} {A : Type ℓ} → (A → Reply) → Run S A → Run (FuseFilesystem S) Reply
replying make op s = let (r, s') = with_backend op s in (answer_with make r, s')
