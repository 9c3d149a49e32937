-- ===== src/Fs/Disk/Confined.antt =====
-- The paths that the operations of src/core/fs/disk.rs hand to the operating system.
pub mod Entries
use azpfs.Base.{ℕ, ◌≡◌, refl, ap, Bool, true, false, Bytes, Option, none, some, arith}
use azpfs.Io.{Outcome, ok, err, panicked, blocked, OfValue}
use azpfs.Fs.Attr.{SystemTime, from_unix}
use azpfs.Fs.Os.{Os, OpenOptions}
use azpfs.Fs.Os.Sandbox.{sandboxed}
use azpfs.Fs.Run.{Run, ◌>>=◌, lift}
use azpfs.Fs.Run.Agree.{Agree, agree, lift-Agree, >>=-Agree, attempt-Agree}
use azpfs.Fs.Paths.{parent, push}
use azpfs.Fs.Paths.Below.{IsPlain}
use azpfs.Fs.Disk.{
  Fs, InodeMap, insert_path, remove_path, insert_if_new, on_disk, ask_disk, on_map, path_of,
  get_path, lookup, get_attr, stats, from_std,
}
use azpfs.Fs.Disk.Files.{
  set_size, set_both_times, set_mode, set_owner, set_attr, create_file, create_dir, allocate, read,
  write,
}
use azpfs.Fs.Disk.Entries.{
  read_dir, parent_inode, remove_at, remove, clear_destination, move_entry, rename,
}

-- What a sandbox has with a path: the paths that plain names lead to from it, and its parent's metadata.
pub record IsClosed (inside visible : Bytes → Bool) : Type 0 where
  pub pushed :
      (path name : Bytes) → inside path ≡ true → IsPlain name → inside (push path name) ≡ true
  pub itself : (path : Bytes) → inside path ≡ true → visible path ≡ true
  pub above : (path up : Bytes) → inside path ≡ true → parent path ≡ some up → visible up ≡ true

abbrev pub Any {κ} : {A : Type κ} → A → Type 0
Any _ = Unit

module _ {inside visible : Bytes → Bool} (closed : IsClosed inside visible) (os : Os) where
  abbrev pub sandbox : Os
  sandbox = sandboxed inside visible os

  -- Every known inode stands for a path inside.
  abbrev pub StaysInside : Fs os → Type 0
  StaysInside s = (inode : ℕ) (path : Bytes) → s.inode_map inode ≡ some path → inside path ≡ true

  -- An operation that does the same in the sandbox, and after which the known paths are inside.
  abbrev pub IsConfined {κ} : {A : Type κ} → (A → Type 0) → Run (Fs os) A → Run (Fs os) A → Type κ
  IsConfined P m m' = Agree {S = Fs os} StaysInside P m m'

  any {κ} : {A : Type κ} (r : Outcome A) → OfValue Any r
  any (ok a) = tt
  any (err e) = tt
  any panicked = tt
  any blocked = tt

  pub kept {κ} : {A : Type κ} (r : Outcome A) → IsConfined Any (lift r) (lift r)
  kept r = lift-Agree r (any r)

  path_of-inside :
      (o : Option Bytes)
      → ((path : Bytes) → o ≡ some path → inside path ≡ true)
      → OfValue (λ path. inside path ≡ true) (path_of os o)
  path_of-inside none h = tt
  path_of-inside (some path) h = h path refl

  pub known :
      (inode : ℕ)
      → IsConfined (λ path. inside path ≡ true) (get_path os inode) (get_path sandbox inode)
  unfolding get_path
  known inode = agree λ s v. (refl, v, path_of-inside (s.inode_map inode) (v inode))

  pub asked {κ} :
      {A : Type κ} (f f' : os.State → Outcome A)
      → ((d : os.State) → f d ≡ f' d)
      → IsConfined Any (ask_disk os f) (ask_disk sandbox f')
  asked f f' h = agree λ s v. (rw (h s.disk), v, any (f s.disk))

  pub done {κ} :
      {A : Type κ} (f f' : os.State → Outcome A × os.State)
      → ((d : os.State) → f d ≡ f' d)
      → IsConfined Any (on_disk os f) (on_disk sandbox f')
  done f f' h = agree λ s v. (rw (h s.disk), v, any (f s.disk).0)

  pub learned :
      (inode : ℕ) (path : Bytes)
      → inside path ≡ true
      → IsConfined Any
          (on_map os (insert_if_new inode path))
          (on_map sandbox (insert_if_new inode path))
  learned inode path h = agree λ s v. (refl, λ i p e. ground (arith, v i p), tt)

  -- A call on a handle, which the sandbox answers in the same way.
  pub unguarded {κ} :
      {A : Type κ} (f : os.State → Outcome A × os.State)
      → IsConfined Any (on_disk os f) (on_disk sandbox f)
  unguarded f = done f f λ d. refl

  -- A call at a path inside, as the sandbox answers it.
  pub looked_at :
      (path : Bytes)
      → visible path ≡ true
      → IsConfined Any (ask_disk os (os.metadata path)) (ask_disk sandbox (sandbox.metadata path))
  looked_at path h = asked _ _ λ d. rw h

  pub opened :
      (opts : OpenOptions) (path : Bytes)
      → inside path ≡ true
      → IsConfined Any
          (on_disk os (os.open_file opts path))
          (on_disk sandbox (sandbox.open_file opts path))
  opened opts path h = done _ _ λ d. rw h

  pub given_mode :
      (path : Bytes) (mode : ℕ)
      → inside path ≡ true
      → IsConfined Any
          (on_disk os (os.set_permissions path mode))
          (on_disk sandbox (sandbox.set_permissions path mode))
  given_mode path mode h = done _ _ λ d. rw h

  pub lookup-IsConfined :
      (dir : ℕ) (name : Bytes)
      → IsPlain name
      → IsConfined Any (lookup os dir name) (lookup sandbox dir name)
  unfolding lookup
  lookup-IsConfined dir name plain = >>=-Agree (known dir) λ path h.
      let below = closed.pushed path name h plain in
      >>=-Agree (looked_at _ (closed.itself _ below))
        λ meta _. >>=-Agree (learned meta.ino _ below) λ _ _. kept (ok meta.ino)

  pub get_attr-IsConfined :
      (inode : ℕ) → IsConfined Any (get_attr os inode) (get_attr sandbox inode)
  unfolding get_attr
  get_attr-IsConfined inode = >>=-Agree (known inode) λ path h.
      >>=-Agree (looked_at path (closed.itself path h)) λ meta _.
        >>=-Agree (kept (from_std meta.file_type)) λ file_type _.
          >>=-Agree (kept meta.accessed) λ accessed _.
            >>=-Agree (kept meta.modified)
              λ modified _. >>=-Agree (kept (from_unix meta.ctime)) λ changed _. kept _

  pub create_file-IsConfined :
      (dir perms flags : ℕ) (name : Bytes)
      → IsPlain name
      → IsConfined Any
          (create_file os dir perms flags name)
          (create_file sandbox dir perms flags name)
  unfolding create_file
  create_file-IsConfined dir perms flags name plain = >>=-Agree (known dir) λ path h.
      let below = closed.pushed path name h plain in
      >>=-Agree (opened _ _ below) λ file _. >>=-Agree (given_mode _ perms below) λ _ _.
        >>=-Agree (asked (os.file_metadata file) (os.file_metadata file) λ d. refl)
          λ meta _. >>=-Agree (learned meta.ino _ below) λ _ _. kept (ok meta.ino)

  pub create_dir-IsConfined :
      (dir perms : ℕ) (name : Bytes)
      → IsPlain name
      → IsConfined Any (create_dir os dir perms name) (create_dir sandbox dir perms name)
  unfolding create_dir
  create_dir-IsConfined dir perms name plain = >>=-Agree (known dir) λ path h.
      let below = closed.pushed path name h plain in
      >>=-Agree (done _ _ λ d. rw below) λ _ _. >>=-Agree (given_mode _ perms below) λ _ _.
        >>=-Agree (looked_at _ (closed.itself _ below))
          λ meta _. >>=-Agree (learned meta.ino _ below) λ _ _. kept (ok meta.ino)

  pub read-IsConfined :
      (inode offset len : ℕ)
      → IsConfined Any (read os inode offset len) (read sandbox inode offset len)
  unfolding read
  read-IsConfined inode offset len = >>=-Agree (known inode) λ path h.
      >>=-Agree (opened _ path h) λ file _.
        >>=-Agree (kept (allocate os len))
          λ _ _. >>=-Agree (unguarded (os.seek file offset)) λ _ _. unguarded (os.read file len)

  pub write-IsConfined :
      (inode offset : ℕ) (content : Bytes)
      → IsConfined Any (write os inode offset content) (write sandbox inode offset content)
  unfolding write
  write-IsConfined inode offset content = >>=-Agree (known inode) λ path h.
      >>=-Agree (opened _ path h) λ file _.
        >>=-Agree (unguarded (os.seek file offset)) λ _ _. unguarded (os.write_all file content)
