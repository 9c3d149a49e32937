-- ===== src/Fs/Disk/Mapping.antt =====
-- What the operations of src/core/fs/disk.rs do to the inode map.
use azpfs.Base.{ℕ, ◌≡◌, Bytes, Option, none, some, arith}
use azpfs.Io.{Outcome}
use azpfs.Fs.Os.{Os}
use azpfs.Fs.Run.{Run, ◌>>=◌, lift}
use azpfs.Fs.Run.Laws.{Steps, steps, lift-Steps, >>=-Steps}
use azpfs.Fs.Paths.{parent}
use azpfs.Fs.Disk.{
  Fs, DiskFs, InodeMap, insert_if_new, on_disk, ask_disk, on_map, get_path, lookup, get_attr, stats,
}
use azpfs.Fs.Attr.{SystemTime}
use azpfs.Fs.Disk.Files.{
  set_size, set_both_times, set_mode, set_owner, set_attr, create_file, create_dir, read, write,
}
use azpfs.Fs.Disk.Entries.{read_dir, parent_inode}

-- The paths of a map are the paths of another one, too.
abbrev pub Extends : InodeMap → InodeMap → Type 0
Extends m m' = (i : ℕ) (path : Bytes) → m i ≡ some path → m' i ≡ some path

abbrev pub KnowsMore : {D : Type 0} → DiskFs D → DiskFs D → Type 0
KnowsMore s s' = Extends s.inode_map s'.inode_map

insert_if_new-Extends :
    (inode : ℕ) (path : Bytes) (m : InodeMap) → Extends m (insert_if_new inode path m)
insert_if_new-Extends inode path m i p h = ground arith

module _ (os : Os) where
  -- An operation after which every known inode has the path it had.
  abbrev pub KeepsPaths {κ} : {A : Type κ} → Run (Fs os) A → Type 0
  KeepsPaths m = Steps {S = Fs os} KnowsMore m

  lifted {κ} : {A : Type κ} (r : Outcome A) → KeepsPaths (lift r)
  lifted = lift-Steps (λ s i p h. h) λ s s' s'' h k i p e. k i p (h i p e)

  bind {κ κ'} :
      {A : Type κ} {B : Type κ'} {m : Run (Fs os) A} {f : A → Run (Fs os) B}
      → KeepsPaths m
      → ((a : A) → KeepsPaths (f a))
      → KeepsPaths (m >>= f)
  bind = >>=-Steps (λ s i p h. h) λ s s' s'' h k i p e. k i p (h i p e)

  on_disk-KeepsPaths {κ} :
      {A : Type κ} (f : os.State → Outcome A × os.State) → KeepsPaths (on_disk os f)
  on_disk-KeepsPaths f = steps λ s i p h. h

  ask_disk-KeepsPaths {κ} : {A : Type κ} (f : os.State → Outcome A) → KeepsPaths (ask_disk os f)
  ask_disk-KeepsPaths f = steps λ s i p h. h

  get_path-KeepsPaths : (inode : ℕ) → KeepsPaths (get_path os inode)
  unfolding get_path
  get_path-KeepsPaths inode = steps λ s i p h. h

  learn-KeepsPaths : (inode : ℕ) (path : Bytes) → KeepsPaths (on_map os (insert_if_new inode path))
  learn-KeepsPaths inode path = steps λ s. insert_if_new-Extends inode path s.inode_map

  ruleset keeps =
      (lifted, bind, on_disk-KeepsPaths, ask_disk-KeepsPaths, get_path-KeepsPaths, learn-KeepsPaths)

  pub lookup-KeepsPaths : (dir : ℕ) (name : Bytes) → KeepsPaths (lookup os dir name)
  unfolding lookup
  lookup-KeepsPaths dir name = search keeps depth 30

  pub get_attr-KeepsPaths : (inode : ℕ) → KeepsPaths (get_attr os inode)
  unfolding get_attr
  get_attr-KeepsPaths inode = search keeps depth 30

  pub create_file-KeepsPaths :
      (dir perms flags : ℕ) (name : Bytes) → KeepsPaths (create_file os dir perms flags name)
  unfolding create_file
  create_file-KeepsPaths dir perms flags name = search keeps depth 30

  pub create_dir-KeepsPaths :
      (dir perms : ℕ) (name : Bytes) → KeepsPaths (create_dir os dir perms name)
  unfolding create_dir
  create_dir-KeepsPaths dir perms name = search keeps depth 30

  pub read-KeepsPaths : (inode offset len : ℕ) → KeepsPaths (read os inode offset len)
  unfolding read
  read-KeepsPaths inode offset len = search keeps depth 30

  pub write-KeepsPaths :
      (inode offset : ℕ) (content : Bytes) → KeepsPaths (write os inode offset content)
  unfolding write
  write-KeepsPaths inode offset content = search keeps depth 30

  pub stats-KeepsPaths : KeepsPaths (stats os)
  stats-KeepsPaths = steps λ s i p h. h

  pub set_attr-KeepsPaths :
      (inode : ℕ) (size : Option ℕ) (atime mtime : Option SystemTime) (perms uid gid : Option ℕ)
      → KeepsPaths (set_attr os inode size atime mtime perms uid gid)
  unfolding set_attr
  set_attr-KeepsPaths inode size atime mtime perms uid gid =
      bind (get_path-KeepsPaths inode) λ path. bind (size_part path size) λ _.
        bind (times_part path atime mtime)
          λ _. bind (mode_part path perms) λ _. owner_part path uid gid
    where
      size_part : (path : Bytes) (o : Option ℕ) → KeepsPaths (set_size os path o)
      size_part path none = lifted _
      size_part path (some n) = search keeps depth 30

      times_part :
          (path : Bytes) (a m : Option SystemTime) → KeepsPaths (set_both_times os path a m)
      times_part path none none = lifted _
      times_part path none (some m) = search keeps depth 30
      times_part path (some a) m = search keeps depth 30

      mode_part : (path : Bytes) (o : Option ℕ) → KeepsPaths (set_mode os path o)
      mode_part path none = lifted _
      mode_part path (some n) = search keeps depth 30

      owner_part : (path : Bytes) (u g : Option ℕ) → KeepsPaths (set_owner os path u g)
      owner_part path none none = lifted _
      owner_part path none (some g) = search keeps depth 30
      owner_part path (some u) g = search keeps depth 30

  pub read_dir-KeepsPaths : (inode : ℕ) → KeepsPaths (read_dir os inode)
  unfolding read_dir
  read_dir-KeepsPaths inode =
      bind (get_path-KeepsPaths inode)
        λ path. bind (ask_disk-KeepsPaths _) λ stream. bind (above_part (parent path)) λ _. lifted _
    where
      above_part : (o : Option Bytes) → KeepsPaths (parent_inode os inode o)
      above_part none = lifted _
      above_part (some p) = ask_disk-KeepsPaths _
