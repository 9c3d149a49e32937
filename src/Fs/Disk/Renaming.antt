-- ===== src/Fs/Disk/Renaming.antt =====
-- `remove` and `rename` of src/core/fs/disk.rs: what they do to the inode map and to the disk.
use azpfs.Base.{ℕ, ==_refl, ◌≡◌, ◌≢◌, refl, sym, ap, ◌∙◌, Bytes, none, some, arith}
use azpfs.Io.{ok, err, IoError}
use azpfs.Fs.Os.{Os}
use azpfs.Fs.Attr.{FileAttr}
use azpfs.Protocol.Codes.{
  FileType, pipe, char_device, block_device, directory, regular_file, symlink, socket,
}
use azpfs.Fs.Texts.{inode_not_found, destination_is_dir}
use azpfs.Fs.Paths.{push}
use azpfs.Fs.Disk.{Fs, insert_path, remove_path, get_path, lookup, get_attr}
use azpfs.Fs.Disk.Entries.{remove, rename, move_entry, check_types}

check_types_refl : (t : FileType) → t ≢ directory → check_types t t ≡ ok tt
unfolding check_types
check_types_refl directory h = elim (h refl) [ ]
check_types_refl pipe h = refl
check_types_refl char_device h = refl
check_types_refl block_device h = refl
check_types_refl regular_file h = refl
check_types_refl symlink h = refl
check_types_refl socket h = refl

check_types-directory :
    (t t' : FileType) → t ≡ directory → check_types t t' ≡ err destination_is_dir
unfolding check_types
check_types-directory t t' h = rw h

module _ (os : Os) where
  -- A file that has been removed has no path.
  pub remove-forgets :
      (inode : ℕ) (s : Fs os)
      → (remove os inode s).0 ≡ ok tt
      → (remove os inode s).1.inode_map ≡ remove_path inode s.inode_map
  unfolding remove get_path
  remove-forgets inode s h = ground arith

  move_entry-ok :
      (inode dir : ℕ) (name : Bytes) (s : Fs os)
      → (move_entry os inode dir name s).0 ≡ ok tt
      → (path : Bytes) × (s.inode_map dir ≡ some path)
        × ((move_entry os inode dir name s).1.inode_map
            ≡ insert_path inode (push path name) s.inode_map)
  unfolding get_path
  move_entry-ok inode dir name s h = ground arith

  -- `rename` where nothing stands at the destination.
  rename-free :
      (inode dir : ℕ) (name : Bytes) (s : Fs os) {e : IoError} {s' : Fs os}
      → lookup os dir name s ≡ (err e, s')
      → rename os inode dir name s ≡ move_entry os inode dir name s'
  unfolding rename
  rename-free inode dir name s h = rw h

  -- `lookup` does not change the disk.
  lookup-disk : (dir : ℕ) (name : Bytes) (s : Fs os) → (lookup os dir name s).1.disk ≡ s.disk
  unfolding lookup get_path
  lookup-disk dir name s = ground arith

  lookup-failed :
      (dir : ℕ) (name : Bytes) (s : Fs os) (e : IoError)
      → (lookup os dir name s).0 ≡ err e
      → (lookup os dir name s).1 ≡ s
  unfolding lookup get_path
  lookup-failed dir name s e h = ground arith

  -- If the destination is found to be the file that is renamed, which is no directory, and this file can be removed, then
  -- `rename` removes it and reports that the inode was not found.
  pub rename-over_itself :
      (inode dir : ℕ) (name : Bytes) (s s' s'' : Fs os) (a : FileAttr)
      → lookup os dir name s ≡ (ok inode, s')
      → get_attr os inode s' ≡ (ok a, s')
      → a.file_type ≢ directory
      → remove os inode s' ≡ (ok tt, s'')
      → rename os inode dir name s ≡ (err inode_not_found, s'')
  unfolding rename get_path
  rename-over_itself inode dir name s s' s'' a found attr not_dir gone =
      rw (found, attr, attr, check_types_refl a.file_type not_dir, gone, forgotten)
    where
      forgotten : s''.inode_map inode ≡ none
      forgotten =
          ap (λ r. r.1.inode_map inode) (sym gone)
          ∙ (ap (λ m. m inode) (remove-forgets inode s' (ap (λ r. r.0) gone)) ∙ rw (==_refl inode))

  -- If the destination is a directory, then `rename` fails and the disk is as before.
  pub rename-onto_directory :
      (inode dir : ℕ) (name : Bytes) (s s' : Fs os) (dest_inode : ℕ) (dest self : FileAttr)
      → lookup os dir name s ≡ (ok dest_inode, s')
      → get_attr os dest_inode s' ≡ (ok dest, s')
      → get_attr os inode s' ≡ (ok self, s')
      → dest.file_type ≡ directory
      → ((rename os inode dir name s).0 ≡ err destination_is_dir)
        × ((rename os inode dir name s).1.disk ≡ s.disk)
  unfolding rename check_types
  rename-onto_directory inode dir name s s' dest_inode dest self found h k e = (
    rw (found, h, k, check_types-directory dest.file_type self.file_type e),
    rw (found, h, k, check_types-directory dest.file_type self.file_type e)
        (ap (λ r. r.1.disk) (sym found) ∙ lookup-disk dir name s),
  )

  -- A `rename` that replaces nothing and succeeds enters the new path for the inode, and no other path
  -- changes: below a directory that was renamed, inodes keep the paths that they had.
  pub rename-moves_one_path :
      (inode dir : ℕ) (name : Bytes) (s s' : Fs os) (e : IoError)
      → lookup os dir name s ≡ (err e, s')
      → (rename os inode dir name s).0 ≡ ok tt
      → (dir_path : Bytes) × (s.inode_map dir ≡ some dir_path)
        × ((rename os inode dir name s).1.inode_map
            ≡ insert_path inode (push dir_path name) s.inode_map)
  rename-moves_one_path inode dir name s s' e missing done =
      let as_moved : rename os inode dir name s ≡ move_entry os inode dir name s =
        rename-free inode dir name s missing
        ∙ ap (move_entry os inode dir name)
            (ap (λ r. r.1) (sym missing) ∙ lookup-failed dir name s e (ap (λ r. r.0) missing)) in
      let (dir_path, known, moved) =
        move_entry-ok inode dir name s (ap (λ r. r.0) (sym as_moved) ∙ done) in
      (dir_path, known, ap (λ r. r.1.inode_map) as_moved ∙ moved)
