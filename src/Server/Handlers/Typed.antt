-- ===== src/Server/Handlers/Typed.antt =====
-- Answers of a file system within the Rust types, and the messages that are made of them.
use azpfs.Base.{
  ℕ, ◌+◌, ◌<◌, ◌≤◌, ◌≡◌, true, Bytes, List, [], ◌∷◌, length, length-append, All, All-append_left,
  All-append_right, IsByte, IsU16, IsU32, IsU64, Option, arith, ◌^◌,
}
use mathlib.Core.Path.{subst}
use azpfs.Io.{Outcome, ok, err, panicked, blocked, IoError}
use azpfs.Protocol.Codes.{is_utf8}
use azpfs.Protocol.Message.{Message}
use azpfs.Protocol.DirEntry.{serialize_dir_entires}
use azpfs.Protocol.Read.WellFormed.{IsWellFormed}
use azpfs.Fs.Attr.{
  SystemTime, after, before, InRange, to_unix, FileAttr, FsStats, attr_into_message,
  stats_into_message,
}
use azpfs.Fs.Backend.{FsBackend}
use azpfs.Server.Chunks.{max_read_res_chunk, assemble_read_res_chunks}
use azpfs.Server.Chunks.Laws.{assemble_read_res_chunks-IsCut}
use azpfs.Client.Combine.Reassembly.{IsCut}

-- An error whose text is a `String`, of a length that its two bytes on the wire can say.
abbrev pub IsTypedError : IoError → Type 0
IsTypedError e = All IsByte e.text × (is_utf8 e.text ≡ true) × (length e.text < 2 ^ 16)

-- The fields within their Rust types.
abbrev pub IsTypedAttr : FileAttr → Type 0
IsTypedAttr a =
    IsU64 a.size
    × IsU64 a.blocks
    × InRange a.access_time
    × InRange a.modification_time
    × InRange a.change_time
    × IsU16 a.permissions
    × IsU32 a.n_hard_links
    × IsU32 a.uid
    × IsU32 a.gid
    × IsU32 a.rdev
    × IsU32 a.block_size

abbrev pub IsTypedStats : FsStats → Type 0
IsTypedStats x =
    IsU32 x.block_size
    × IsU64 x.total_blocks
    × IsU64 x.free_blocks
    × IsU64 x.avail_blocks
    × IsU64 x.total_inodes
    × IsU64 x.free_inodes
    × IsU32 x.max_filename_len
    × IsU32 x.fragment_size

-- A payload for READ_RES messages.
abbrev pub IsPayload : Bytes → Type 0
IsPayload bytes = All IsByte bytes × IsU64 (length bytes)

-- A result of the file system that the Rust types admit.
abbrev pub IsTypedResult {ℓ} : {A : Type ℓ} → (A → Type 0) → Outcome A → Type 0
IsTypedResult P (ok a) = P a
IsTypedResult P (err e) = IsTypedError e
IsTypedResult P panicked = Unit
IsTypedResult P blocked = Unit

-- What the file system answers in the state `s` lies within the Rust types.
pub record AnswersTyped (fs : FsBackend) (s : fs.State) : Type 0 where
  pub lookup : (dir : ℕ) (name : Bytes) → IsTypedResult IsU64 (fs.lookup dir name s).0
  pub get_attr : (inode : ℕ) → IsTypedResult IsTypedAttr (fs.get_attr inode s).0
  pub set_attr :
      (inode : ℕ) (size : Option ℕ) (at mt : Option SystemTime) (p u g : Option ℕ)
      → IsTypedResult (λ _. Unit) (fs.set_attr inode size at mt p u g s).0
  pub stats : IsTypedResult IsTypedStats (fs.stats s).0
  pub create_file :
      (dir p flags : ℕ) (name : Bytes) → IsTypedResult IsU64 (fs.create_file dir p flags name s).0
  pub create_dir : (dir p : ℕ) (name : Bytes) → IsTypedResult IsU64 (fs.create_dir dir p name s).0
  pub read : (inode offset len : ℕ) → IsTypedResult IsPayload (fs.read inode offset len s).0
  pub write :
      (inode offset : ℕ) (content : Bytes)
      → IsTypedResult (λ _. Unit) (fs.write inode offset content s).0
  pub read_dir :
      (inode : ℕ)
      → IsTypedResult (λ es. IsPayload (serialize_dir_entires es)) (fs.read_dir inode s).0
  pub remove : (inode : ℕ) → IsTypedResult (λ _. Unit) (fs.remove inode s).0
  pub rename :
      (inode dir : ℕ) (name : Bytes) → IsTypedResult (λ _. Unit) (fs.rename inode dir name s).0

pub to_unix-IsU64 : (t : SystemTime) → InRange t → IsU64 (to_unix t)
unfolding to_unix
to_unix-IsU64 (after n) h = omega arith
to_unix-IsU64 (before n) h = omega arith

pub attr_into_message-IsWellFormed :
    (a : FileAttr) (id : ℕ) → IsU32 id → IsTypedAttr a → IsWellFormed (attr_into_message a id)
unfolding attr_into_message
attr_into_message-IsWellFormed a id i (s, b, at, mt, ct, p, n, u, g, r, k) = (
  (
    i,
    s,
    b,
    to_unix-IsU64 a.access_time at,
    to_unix-IsU64 a.modification_time mt,
    to_unix-IsU64 a.change_time ct,
    p,
    n,
    u,
    g,
    r,
    k,
  ),
  tt,
)

pub stats_into_message-IsWellFormed :
    (x : FsStats) (id : ℕ) → IsU32 id → IsTypedStats x → IsWellFormed (stats_into_message x id)
unfolding stats_into_message
stats_into_message-IsWellFormed x id i (k, b, f, v, t, j, m, g) = ((i, k, b, f, v, t, j, m, g), tt)

IsCut-IsWellFormed :
    (id total head : ℕ) (ms : List Message) (bytes : Bytes)
    → IsU32 id
    → IsU64 total
    → All IsByte bytes
    → head + length bytes ≤ total
    → IsCut max_read_res_chunk id total head ms bytes
    → All IsWellFormed ms
IsCut-IsWellFormed id total head [] bytes i t b k h = tt
IsCut-IsWellFormed id total head (m ∷ ms) bytes i t b k (c, rest, same, split, pos, fits, more) =
    let parts = subst (All IsByte) split b in
    let size : length bytes ≡ length c + length rest = rw split (length-append c rest) in
    (
      rw same ((i, t, omega arith, All-append_left IsByte c rest parts), omega (arith, fits)),
      IsCut-IsWellFormed id total (head + length c) ms rest i t
          (All-append_right IsByte c rest parts) (omega arith) more,
    )

pub assemble_read_res_chunks-IsWellFormed :
    (id : ℕ) (bytes : Bytes)
    → IsU32 id
    → IsPayload bytes
    → All IsWellFormed (assemble_read_res_chunks id bytes)
assemble_read_res_chunks-IsWellFormed id [] i h =
    unfold assemble_read_res_chunks in (((i, omega arith, omega arith, tt), omega arith), tt)
assemble_read_res_chunks-IsWellFormed id (b ∷ bs) i h =
    IsCut-IsWellFormed id (length (b ∷ bs)) 0 _ (b ∷ bs) i h.1 h.0 (omega arith)
      (assemble_read_res_chunks-IsCut id (b ∷ bs) (omega arith))
