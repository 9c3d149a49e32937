-- ===== src/Client/Fuse/Operations.antt =====
-- The methods of `Filesystem` in src/core/client/fuse.rs, over the backend `fs`. Arguments that a method
-- leaves unused are left out.
use azpfs.Base.{
  ℕ, suc, ◌+◌, ◌%◌, ◌^◌, Bool, Option, List, [], ◌∷◌, ◌++◌, Bytes, length, drop, if◌then◌else◌,
}
use mathlib.Core.Option
use azpfs.Io.{Outcome, ok}
use azpfs.Protocol.DirEntry.{DirEntry}
use azpfs.Fs.Attr.{SystemTime, FileAttr}
use azpfs.Fs.Backend.{FsBackend}
use azpfs.Fs.Run.{Run, ◌>>=◌, ◌>>◌, pure}
use azpfs.Client.Fuse.{
  Listed, Reply, entry, attr, done, content, written, listing, unsent, created, statfs, TimeOrNow,
  FuseFilesystem, fuser_type_of, to_fuser_attr, resolve_time, ttl, replying,
}

-- The `i`-th entry, as `readdir` adds it.
unfoldable pub added_entry : ℕ → DirEntry → Listed
unfolding fuser_type_of
added_entry i e = record {
  ino = e.inode;
  offset = i + 1;
  kind = fuser_type_of e.file_type;
  name = e.filename;
}

-- The `for` loop of `readdir` from the `i`-th entry on. `full` is what `add` answers to an entry, by
-- those that were added before.
unfoldable pub add_entries :
    (full : List Listed → Listed → Bool) → ℕ → List Listed → List DirEntry → Reply
unfolding added_entry
add_entries full i added [] = listing added
add_entries full i added (e ∷ es) =
    let rest = add_entries full (suc i) (added ++ (added_entry i e ∷ [])) es in
    if full added (added_entry i e) then unsent added else rest

module _ (fs : FsBackend) where
  abbrev pub Fuse : Type 0
  Fuse = Run (FuseFilesystem fs.State) Reply

  -- An inode with its attributes.
  abbrev pub with_attr : ℕ → Run fs.State (ℕ × FileAttr)
  with_attr ino = do a ← fs.get_attr ino; pure (ino, a)

  abbrev pub reply_entry : ℕ × FileAttr → Reply
  reply_entry (ino, a) = entry ttl (to_fuser_attr ino a) 0

  unfoldable pub fuse_lookup : (parent : ℕ) (name : Bytes) → Fuse
  fuse_lookup parent name = replying reply_entry (do ino ← fs.lookup parent name; with_attr ino)

  unfoldable pub getattr : (ino : ℕ) → Fuse
  getattr ino = replying (λ a. attr ttl (to_fuser_attr ino a)) (fs.get_attr ino)

  -- `atime_clock` and `mtime_clock` are the times at which the two arguments are resolved.
  unfoldable pub setattr :
      (atime_clock mtime_clock : SystemTime) (ino : ℕ) (mode uid gid size : Option ℕ)
      (atime mtime : Option TimeOrNow)
      → Fuse
  unfolding resolve_time
  setattr atime_clock mtime_clock ino mode uid gid size atime mtime =
      replying (λ a. attr ttl (to_fuser_attr ino a))
        (do
          fs.set_attr ino size (resolve_time atime_clock atime) (resolve_time mtime_clock mtime)
              (Option.map (λ m. m % 2 ^ 16) mode) uid gid
          fs.get_attr ino)

  unfoldable pub mkdir : (parent : ℕ) (name : Bytes) (mode : ℕ) → Fuse
  mkdir parent name mode =
      replying reply_entry (do ino ← fs.create_dir parent (mode % 2 ^ 16) name; with_attr ino)

  unfoldable pub unlink : (parent : ℕ) (name : Bytes) → Fuse
  unlink parent name = replying (λ _. done) (do ino ← fs.lookup parent name; fs.remove ino)

  unfoldable pub rmdir : (parent : ℕ) (name : Bytes) → Fuse
  rmdir parent name = replying (λ _. done) (do ino ← fs.lookup parent name; fs.remove ino)

  unfoldable pub fuse_rename : (parent : ℕ) (name : Bytes) (newparent : ℕ) (newname : Bytes) → Fuse
  fuse_rename parent name newparent newname =
      replying (λ _. done) (do ino ← fs.lookup parent name; fs.rename ino newparent newname)

  unfoldable pub fuse_read : (ino offset size : ℕ) → Fuse
  fuse_read ino offset size = replying content (fs.read ino offset size)

  unfoldable pub fuse_write : (ino offset : ℕ) (bytes : Bytes) → Fuse
  fuse_write ino offset bytes =
      replying (λ _. written (length bytes % 2 ^ 32)) (fs.write ino offset bytes)

  unfoldable pub flush : Fuse
  flush s = (ok done, s)

  unfoldable pub readdir : (full : List Listed → Listed → Bool) (ino offset : ℕ) → Fuse
  readdir full ino offset =
      replying (λ entries. add_entries full offset [] (drop offset entries)) (fs.read_dir ino)

  -- `flags` is the 32 bits of an `i32`.
  unfoldable pub create : (parent : ℕ) (name : Bytes) (mode flags : ℕ) → Fuse
  create parent name mode flags =
      replying (λ r. created ttl (to_fuser_attr r.0 r.1) 0 0 0)
        (do ino ← fs.create_file parent (mode % 2 ^ 16) flags name; with_attr ino)

  unfoldable pub fuse_statfs : Fuse
  fuse_statfs =
      replying
        (λ s.
          statfs s.total_blocks s.free_blocks s.avail_blocks s.total_inodes s.free_inodes
            s.block_size s.max_filename_len s.fragment_size)
        fs.stats

-- A call of the kernel that `FUSEFilesystem` implements, with what the methods take from outside.
pub data Operation : Type 0 where
  looks_up : (parent : ℕ) (name : Bytes) → Operation
  gets_attr : (ino : ℕ) → Operation
  sets_attr :
      (atime_clock mtime_clock : SystemTime) (ino : ℕ) (mode uid gid size : Option ℕ)
      (atime mtime : Option TimeOrNow)
      → Operation
  makes_dir : (parent : ℕ) (name : Bytes) (mode : ℕ) → Operation
  unlinks removes_dir : (parent : ℕ) (name : Bytes) → Operation
  renames : (parent : ℕ) (name : Bytes) (newparent : ℕ) (newname : Bytes) → Operation
  reads : (ino offset size : ℕ) → Operation
  writes : (ino offset : ℕ) (bytes : Bytes) → Operation
  flushes : Operation
  lists : (full : List Listed → Listed → Bool) (ino offset : ℕ) → Operation
  creates : (parent : ℕ) (name : Bytes) (mode flags : ℕ) → Operation
  gives_stats : Operation

-- The method of the call.
unfoldable pub serve : (fs : FsBackend) → Operation → Fuse fs
serve fs (looks_up p n) = fuse_lookup fs p n
serve fs (gets_attr i) = getattr fs i
serve fs (sets_attr ca cm i m u g z at mt) = setattr fs ca cm i m u g z at mt
serve fs (makes_dir p n m) = mkdir fs p n m
serve fs (unlinks p n) = unlink fs p n
serve fs (removes_dir p n) = rmdir fs p n
serve fs (renames p n q o) = fuse_rename fs p n q o
serve fs (reads i o z) = fuse_read fs i o z
serve fs (writes i o b) = fuse_write fs i o b
serve fs flushes = flush fs
serve fs (lists full i o) = readdir fs full i o
serve fs (creates p n m f) = create fs p n m f
serve fs gives_stats = fuse_statfs fs

-- Calls one after another: their replies, and the state after them.
unfoldable pub serve_all :
    (fs : FsBackend)
    → List Operation
    → FuseFilesystem fs.State
    → List (Outcome Reply) × FuseFilesystem fs.State
serve_all fs [] t = ([], t)
serve_all fs (op ∷ ops) t =
    let (r, t') = serve fs op t in let (rs, t'') = serve_all fs ops t' in (r ∷ rs, t'')
