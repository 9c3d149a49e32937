-- ===== src/Fs/Attr.antt =====
-- Times, `FileAttr` and `FsStats` of src/core/fs/mod.rs, and their conversions to and from messages.
use azpfs.Base.{
  ℕ, ◌*◌, ◌/◌, ◌^◌, ◌<◌, ◌≡◌, refl, Option, none, some, ltb, lt→ltb, if◌then◌else◌, arith,
}
use azpfs.Io.{Outcome, ok, panicked, ◌>>=◌}
use azpfs.Protocol.Codes.{FileType}
use azpfs.Protocol.Message.{Message, file_attr_res, stats_res}

abbrev pub nanos_per_sec : ℕ
nanos_per_sec = 1_000_000_000

-- `std::time::SystemTime`, in nanoseconds from the Unix epoch. `before n` lies n + 1 of them before
-- it.
pub data SystemTime : Type 0 where
  after before : ℕ → SystemTime

-- `duration_since(UNIX_EPOCH).unwrap_or_default().as_secs()`
unfoldable pub to_unix : SystemTime → ℕ
to_unix (after n) = n / nanos_per_sec
to_unix (before n) = 0

-- `UNIX_EPOCH + Duration::from_secs(secs)`: the seconds of a time are an `i64`, and the sum panics
-- where it does not fit.
unfoldable pub from_unix : ℕ → Outcome SystemTime
from_unix secs = if ltb secs (2 ^ 63) then ok (after (secs * nanos_per_sec)) else panicked

-- The times that `SystemTime` can hold.
abbrev pub InRange : SystemTime → Type 0
InRange (after n) = n < 2 ^ 63 * nanos_per_sec
InRange (before n) = n < 2 ^ 63 * nanos_per_sec

-- A time cut to whole seconds, and to the epoch if it lies before it.
unfoldable pub whole_seconds : SystemTime → SystemTime
whole_seconds (after n) = after (n / nanos_per_sec * nanos_per_sec)
whole_seconds (before n) = after 0

pub from_unix-to_unix : (t : SystemTime) → InRange t → from_unix (to_unix t) ≡ ok (whole_seconds t)
unfolding from_unix to_unix whole_seconds
from_unix-to_unix (after n) h = rw (lt→ltb (n / nanos_per_sec) (2 ^ 63) (omega arith))
from_unix-to_unix (before n) h = refl

pub record FileAttr : Type 0 where
  pub file_type : FileType
  pub size : ℕ
  pub blocks : ℕ
  pub access_time : SystemTime
  pub modification_time : SystemTime
  pub change_time : SystemTime
  pub permissions : ℕ
  pub n_hard_links : ℕ
  pub uid : ℕ
  pub gid : ℕ
  pub rdev : ℕ
  pub block_size : ℕ

-- `FileAttr::into_message`
unfoldable pub attr_into_message : FileAttr → ℕ → Message
attr_into_message a id =
    file_attr_res id a.file_type a.size a.blocks (to_unix a.access_time)
      (to_unix a.modification_time) (to_unix a.change_time) a.permissions a.n_hard_links a.uid a.gid
      a.rdev a.block_size

-- `FileAttr::from_message`
unfoldable pub attr_from_message : Message → Outcome (Option FileAttr)
attr_from_message (file_attr_res _ ft size blocks at mt ct perms nlinks uid gid rdev blksize) =
    from_unix at >>= λ access. from_unix mt >>= λ modification. from_unix ct >>= λ change. ok (
      some (record {
        file_type = ft;
        size = size;
        blocks = blocks;
        access_time = access;
        modification_time = modification;
        change_time = change;
        permissions = perms;
        n_hard_links = nlinks;
        uid = uid;
        gid = gid;
        rdev = rdev;
        block_size = blksize;
      }))
attr_from_message _ = ok none

-- Attributes as the peer sees them.
unfoldable pub in_seconds : FileAttr → FileAttr
in_seconds a = record a {
  access_time = whole_seconds a.access_time;
  modification_time = whole_seconds a.modification_time;
  change_time = whole_seconds a.change_time;
}

-- Attributes that are sent arrive as they are, but for times, which are cut to whole seconds.
pub attr_from_message-attr_into_message :
    (a : FileAttr) (id : ℕ)
    → InRange a.access_time
    → InRange a.modification_time
    → InRange a.change_time
    → attr_from_message (attr_into_message a id) ≡ ok (some (in_seconds a))
unfolding attr_from_message attr_into_message in_seconds
attr_from_message-attr_into_message a id h k l = rw (
  from_unix-to_unix a.access_time h,
  from_unix-to_unix a.modification_time k,
  from_unix-to_unix a.change_time l,
)

pub record FsStats : Type 0 where
  pub block_size : ℕ
  pub total_blocks : ℕ
  pub free_blocks : ℕ
  pub avail_blocks : ℕ
  pub total_inodes : ℕ
  pub free_inodes : ℕ
  pub max_filename_len : ℕ
  pub fragment_size : ℕ

-- `FsStats::into_message`
unfoldable pub stats_into_message : FsStats → ℕ → Message
stats_into_message s id =
    stats_res id s.block_size s.total_blocks s.free_blocks s.avail_blocks s.total_inodes
      s.free_inodes s.max_filename_len s.fragment_size

-- `FsStats::from_message`
unfoldable pub stats_from_message : Message → Option FsStats
stats_from_message (stats_res _ blksize blocks free avail inodes free_inodes max_name fragment) =
    some (record {
      block_size = blksize;
      total_blocks = blocks;
      free_blocks = free;
      avail_blocks = avail;
      total_inodes = inodes;
      free_inodes = free_inodes;
      max_filename_len = max_name;
      fragment_size = fragment;
    })
stats_from_message _ = none

pub stats_from_message-stats_into_message :
    (s : FsStats) (id : ℕ) → stats_from_message (stats_into_message s id) ≡ some s
unfolding stats_from_message stats_into_message
stats_from_message-stats_into_message s id = refl
