-- ===== src/Fs/Os.antt =====
-- The file system of the operating system, as src/core/fs/disk.rs reaches it through `std::fs` and
-- `tokio::fs`: a parameter of the model. Every call is one step on its state, and a path is its
-- bytes.
pub mod Sandbox
use azpfs.Base.{ℕ, Bool, Bytes, List, Option}
use azpfs.Io.{Outcome}
use azpfs.Fs.Attr.{SystemTime}

-- `std::fs::FileType`, by its tests.
pub record StdFileType : Type 0 where
  pub is_fifo : Bool
  pub is_char_device : Bool
  pub is_block_device : Bool
  pub is_dir : Bool
  pub is_file : Bool
  pub is_symlink : Bool
  pub is_socket : Bool

-- `std::fs::Metadata`. `ctime` is the 64 bits of an `i64`, read as a `u64`.
pub record Metadata : Type 0 where
  pub ino : ℕ
  pub file_type : StdFileType
  pub len : ℕ
  pub blocks : ℕ
  pub accessed : Outcome SystemTime
  pub modified : Outcome SystemTime
  pub ctime : ℕ
  pub mode : ℕ
  pub nlink : ℕ
  pub uid : ℕ
  pub gid : ℕ
  pub rdev : ℕ
  pub blksize : ℕ

-- `OpenOptions`, of which `File::open` is the one that reads.
pub record OpenOptions : Type 0 where
  pub read : Bool
  pub write : Bool
  pub create : Bool
  pub create_new : Bool
  pub truncate : Bool

-- An entry of a directory stream. Its type is asked for by a further call.
pub record StreamEntry : Type 0 where
  pub ino : ℕ
  pub file_type : Outcome StdFileType
  pub file_name : Bytes

-- `o_excl_bit` and `o_trunc_bit` are the positions of the one bit of `O_EXCL` and `O_TRUNC` of libc.
-- `read` gives the bytes that were read, at most as many as were asked for. The directory stream is
-- the results of its `next_entry`, in order.
pub record Os : Type 1 where
  pub State : Type 0
  pub Handle : Type 0
  pub o_excl_bit : ℕ
  pub o_trunc_bit : ℕ
  pub metadata : (path : Bytes) → State → Outcome Metadata
  pub open_file : OpenOptions → (path : Bytes) → State → Outcome Handle × State
  pub file_metadata : Handle → State → Outcome Metadata
  pub set_len : Handle → ℕ → State → Outcome (Unit {0}) × State
  pub set_times :
      Handle → (accessed modified : Option SystemTime) → State → Outcome (Unit {0}) × State
  pub seek : Handle → ℕ → State → Outcome (Unit {0}) × State
  pub read : Handle → (len : ℕ) → State → Outcome Bytes × State
  pub write_all : Handle → Bytes → State → Outcome (Unit {0}) × State
  pub set_permissions : (path : Bytes) (mode : ℕ) → State → Outcome (Unit {0}) × State
  pub chown : (path : Bytes) (uid gid : Option ℕ) → State → Outcome (Unit {0}) × State
  pub create_dir : (path : Bytes) → State → Outcome (Unit {0}) × State
  pub read_dir : (path : Bytes) → State → Outcome (List (Outcome StreamEntry))
  pub remove_dir_all : (path : Bytes) → State → Outcome (Unit {0}) × State
  pub remove_file : (path : Bytes) → State → Outcome (Unit {0}) × State
  pub rename : (old_path new_path : Bytes) → State → Outcome (Unit {0}) × State
