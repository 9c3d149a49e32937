-- ===== src/Fs/Disk/Resolution.antt =====
-- How src/core/fs/disk.rs finds the path that an inode stands for.
use azpfs.Base.{ℕ, ◌≡◌, ap, ◌∙◌, ==_refl, Bytes, Option, none, some, true, arith}
use azpfs.Io.{ok, err, map_outcome}
use azpfs.Fs.Os.{Os, Metadata}
use azpfs.Fs.Attr.{SystemTime}
use azpfs.Fs.Texts.{inode_not_found}
use azpfs.Fs.Paths.{push, is_absolute}
use azpfs.Fs.Disk.{Fs, get_path, lookup, get_attr}
use azpfs.Fs.Disk.Files.{set_attr, create_file, create_dir, read, write}
use azpfs.Fs.Disk.Entries.{read_dir, remove}
use azpfs.Fs.Disk.Renaming.{remove-forgets}

abbrev path_or : Option Bytes → Bytes → Bytes
path_or (some path) other = path
path_or none other = other

module _ (os : Os) where
  -- A name that is found has the inode of the file at the path that pushing it onto the directory's gives. The inode then
  -- stands for that path, unless it stood for one before, which it keeps.
  pub lookup-resolves :
      (dir : ℕ) (name dir_path : Bytes) (s s' : Fs os) (inode : ℕ)
      → s.inode_map dir ≡ some dir_path
      → lookup os dir name s ≡ (ok inode, s')
      → (map_outcome (λ meta. meta.ino) (os.metadata (push dir_path name) s'.disk) ≡ ok inode)
        × (s'.inode_map inode ≡ some (path_or (s.inode_map inode) (push dir_path name)))
  unfolding lookup get_path
  lookup-resolves dir name dir_path s s' inode known found = ground arith

  -- An absolute name is resolved by itself, whatever the known directory, and its inode, if it stood for
  -- no path before, stands for this name.
  pub lookup-escapes :
      (dir : ℕ) (name dir_path : Bytes) (s : Fs os) (meta : Metadata)
      → s.inode_map dir ≡ some dir_path
      → is_absolute name ≡ true
      → os.metadata name s.disk ≡ ok meta
      → s.inode_map meta.ino ≡ none
      → ((lookup os dir name s).0 ≡ ok meta.ino)
        × ((lookup os dir name s).1.inode_map meta.ino ≡ some name)
  unfolding lookup get_path push
  lookup-escapes dir name dir_path s meta known absolute found new =
      (rw (known, absolute, found), rw (known, absolute, found, new, ==_refl meta.ino))

  -- Every operation on the inode but `rename` fails with `NotFound` and changes nothing.
  abbrev pub IsRefused : ℕ → Fs os → Type 0
  IsRefused inode s =
      ((name : Bytes) → lookup os inode name s ≡ (err inode_not_found, s))
      × (get_attr os inode s ≡ (err inode_not_found, s))
      × ((size : Option ℕ) (atime mtime : Option SystemTime) (perms uid gid : Option ℕ)
          → set_attr os inode size atime mtime perms uid gid s ≡ (err inode_not_found, s))
      × ((perms flags : ℕ) (name : Bytes)
          → create_file os inode perms flags name s ≡ (err inode_not_found, s))
      × ((perms : ℕ) (name : Bytes) → create_dir os inode perms name s ≡ (err inode_not_found, s))
      × ((offset len : ℕ) → read os inode offset len s ≡ (err inode_not_found, s))
      × ((offset : ℕ) (content : Bytes)
          → write os inode offset content s ≡ (err inode_not_found, s))
      × (read_dir os inode s ≡ (err inode_not_found, s))
      × (remove os inode s ≡ (err inode_not_found, s))

  -- An inode that stands for no path is refused by every operation but `rename`, without effect.
  pub unknown_inode : (inode : ℕ) (s : Fs os) → s.inode_map inode ≡ none → IsRefused inode s
  unfolding lookup get_attr set_attr create_file create_dir read write read_dir remove get_path
  unknown_inode inode s h = (
    λ name. rw h,
    rw h,
    λ size atime mtime perms uid gid. rw h,
    λ perms flags name. rw h,
    λ perms name. rw h,
    λ offset len. rw h,
    λ offset content. rw h,
    rw h,
    rw h,
  )

  -- A file that has been removed is refused by every operation but `rename`, without effect.
  pub remove-IsRefused :
      (inode : ℕ) (s : Fs os)
      → (remove os inode s).0 ≡ ok tt
      → IsRefused inode (remove os inode s).1
  remove-IsRefused inode s done =
      unknown_inode inode (remove os inode s).1
        (ap (λ m. m inode) (remove-forgets os inode s done) ∙ rw (==_refl inode))
