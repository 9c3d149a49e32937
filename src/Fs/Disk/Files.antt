-- ===== src/Fs/Disk/Files.antt =====
-- `set_attr`, `create_file`, `create_dir`, `read` and `write` of src/core/fs/disk.rs.
use azpfs.Base.{ℕ, ◌^◌, true, false, Option, none, some, Bytes, ltb, if◌then◌else◌}
use azpfs.Io.{Outcome, ok, panicked}
use azpfs.Fs.Attr.{SystemTime}
use azpfs.Fs.Run.{Run, ◌>>=◌, ◌>>◌, lift, pure}
use azpfs.Fs.Paths.{push}
use azpfs.Fs.Os.{Os, OpenOptions}
use azpfs.Fs.Disk.{
  Fs, on_disk, ask_disk, on_map, insert_if_new, get_path, has_bit, write_only, read_only,
}

module _ (os : Os) where
  -- The four parts of `set_attr`, each of which does something only if it has been given a value.
  abbrev pub set_size : Bytes → Option ℕ → Run (Fs os) (Unit {0})
  set_size path none = pure tt
  set_size path (some size) = do
    file ← on_disk os (os.open_file write_only path)
    on_disk os (os.set_len file size)

  abbrev pub set_both_times : Bytes → Option SystemTime → Option SystemTime → Run (Fs os) (Unit {0})
  set_both_times path none none = pure tt
  set_both_times path atime mtime = do
    file ← on_disk os (os.open_file write_only path)
    on_disk os (os.set_times file atime mtime)

  abbrev pub set_mode : Bytes → Option ℕ → Run (Fs os) (Unit {0})
  set_mode path none = pure tt
  set_mode path (some perms) = on_disk os (os.set_permissions path perms)

  abbrev pub set_owner : Bytes → Option ℕ → Option ℕ → Run (Fs os) (Unit {0})
  set_owner path none none = pure tt
  set_owner path uid gid = on_disk os (os.chown path uid gid)

  unfoldable pub set_attr :
      ℕ
      → Option ℕ
      → Option SystemTime
      → Option SystemTime
      → Option ℕ
      → Option ℕ
      → Option ℕ
      → Run (Fs os) (Unit {0})
  unfolding get_path
  set_attr inode size atime mtime permissions uid gid = do
    path ← get_path os inode
    set_size path size
    set_both_times path atime mtime
    set_mode path permissions
    set_owner path uid gid

  unfoldable pub create_file : ℕ → ℕ → ℕ → Bytes → Run (Fs os) ℕ
  unfolding get_path
  create_file parent_inode perms unix_flags filename = do
    dir ← get_path os parent_inode
    let path = push dir filename
    let opts : OpenOptions = record {
      read = false;
      write = true;
      create = true;
      create_new = has_bit unix_flags os.o_excl_bit;
      truncate = has_bit unix_flags os.o_trunc_bit;
    }
    file ← on_disk os (os.open_file opts path)
    on_disk os (os.set_permissions path perms)
    meta ← ask_disk os (os.file_metadata file)
    on_map os (insert_if_new meta.ino path)
    pure meta.ino

  unfoldable pub create_dir : ℕ → ℕ → Bytes → Run (Fs os) ℕ
  unfolding get_path
  create_dir parent_inode permissions dir_name = do
    dir ← get_path os parent_inode
    let path = push dir dir_name
    on_disk os (os.create_dir path)
    on_disk os (os.set_permissions path permissions)
    meta ← ask_disk os (os.metadata path)
    on_map os (insert_if_new meta.ino path)
    pure meta.ino

  -- `vec![0; len as usize]`, which panics past `isize::MAX`. Memory is taken not to run out.
  abbrev pub allocate : ℕ → Outcome (Unit {0})
  allocate len = if ltb len (2 ^ 63) then ok tt else panicked

  unfoldable pub read : ℕ → ℕ → ℕ → Run (Fs os) Bytes
  unfolding get_path
  read inode offset len = do
    path ← get_path os inode
    file ← on_disk os (os.open_file read_only path)
    lift (allocate len)
    on_disk os (os.seek file offset)
    on_disk os (os.read file len)

  unfoldable pub write : ℕ → ℕ → Bytes → Run (Fs os) (Unit {0})
  unfolding get_path
  write inode offset content = do
    path ← get_path os inode
    file ← on_disk os (os.open_file write_only path)
    on_disk os (os.seek file offset)
    on_disk os (os.write_all file content)
