-- ===== src/Fs/Disk/Confined/Entries.antt =====
-- The paths that `set_attr`, `read_dir`, `remove` and `rename` of src/core/fs/disk.rs hand to the
-- operating system.
use azpfs.Base.{ℕ, ◌≡◌, refl, Bool, true, false, Bytes, Option, none, some, ◌∷◌, [], arith}
use azpfs.Fs.Attr.{SystemTime}
use azpfs.Fs.Os.{Os}
use azpfs.Fs.Run.Agree.{agree, >>=-Agree, attempt-Agree}
use azpfs.Fs.Paths.{parent, push}
use azpfs.Fs.Paths.Below.{IsPlain}
use azpfs.Fs.Disk.{insert_path, remove_path, on_map, write_only, stats}
use azpfs.Fs.Disk.Files.{set_size, set_both_times, set_mode, set_owner, set_attr}
use azpfs.Fs.Disk.Listing.{directory_named, read_stream}
use azpfs.Fs.Disk.Entries.{
  read_dir, parent_inode, remove_at, remove, check_types, clear_destination, move_entry, rename,
}
use azpfs.Fs.Disk.Confined.{
  IsClosed, sandbox, IsConfined, Any, kept, known, asked, done, looked_at, opened, given_mode,
  unguarded, lookup-IsConfined, get_attr-IsConfined,
}

module _ {inside visible : Bytes → Bool} (closed : IsClosed inside visible) (os : Os) where
  pub stats-IsConfined : IsConfined closed os Any (stats os) (stats (sandbox closed os))
  stats-IsConfined = kept closed os _

  forgotten :
      (inode : ℕ)
      → IsConfined closed os Any
          (on_map os (remove_path inode))
          (on_map (sandbox closed os) (remove_path inode))
  forgotten inode = agree λ s v. (refl, λ i p e. ground (arith, v i p), tt)

  entered :
      (inode : ℕ) (path : Bytes)
      → inside path ≡ true
      → IsConfined closed os Any
          (on_map os (insert_path inode path))
          (on_map (sandbox closed os) (insert_path inode path))
  entered inode path h = agree λ s v. (refl, λ i p e. ground (arith, v i p), tt)

  size_part :
      (path : Bytes) (size : Option ℕ)
      → inside path ≡ true
      → IsConfined closed os Any (set_size os path size) (set_size (sandbox closed os) path size)
  size_part path none h = kept closed os _
  size_part path (some n) h =
      >>=-Agree (opened closed os write_only path h)
        λ file _. unguarded closed os (os.set_len file n)

  times_part :
      (path : Bytes) (at mt : Option SystemTime)
      → inside path ≡ true
      → IsConfined closed os Any
          (set_both_times os path at mt)
          (set_both_times (sandbox closed os) path at mt)
  times_part path none none h = kept closed os _
  times_part path none (some t) h =
      >>=-Agree (opened closed os write_only path h)
        λ file _. unguarded closed os (os.set_times file none (some t))
  times_part path (some t) mt h =
      >>=-Agree (opened closed os write_only path h)
        λ file _. unguarded closed os (os.set_times file (some t) mt)

  mode_part :
      (path : Bytes) (perms : Option ℕ)
      → inside path ≡ true
      → IsConfined closed os Any (set_mode os path perms) (set_mode (sandbox closed os) path perms)
  mode_part path none h = kept closed os _
  mode_part path (some mode) h = given_mode closed os path mode h

  owner_part :
      (path : Bytes) (uid gid : Option ℕ)
      → inside path ≡ true
      → IsConfined closed os Any
          (set_owner os path uid gid)
          (set_owner (sandbox closed os) path uid gid)
  owner_part path none none h = kept closed os _
  owner_part path none (some g) h = done closed os _ _ λ d. rw h
  owner_part path (some u) gid h = done closed os _ _ λ d. rw h

  pub set_attr-IsConfined :
      (inode : ℕ) (size : Option ℕ) (at mt : Option SystemTime) (perms uid gid : Option ℕ)
      → IsConfined closed os Any
          (set_attr os inode size at mt perms uid gid)
          (set_attr (sandbox closed os) inode size at mt perms uid gid)
  unfolding set_attr
  set_attr-IsConfined inode size at mt perms uid gid = >>=-Agree (known closed os inode) λ path h.
      >>=-Agree (size_part path size h) λ _ _.
        >>=-Agree (times_part path at mt h)
          λ _ _. >>=-Agree (mode_part path perms h) λ _ _. owner_part path uid gid h

  above_part :
      (inode : ℕ) (o : Option Bytes)
      → ((up : Bytes) → o ≡ some up → visible up ≡ true)
      → IsConfined closed os Any
          (parent_inode os inode o)
          (parent_inode (sandbox closed os) inode o)
  above_part inode none h = kept closed os _
  above_part inode (some up) h = asked closed os _ _ λ d. rw (h up refl)

  pub read_dir-IsConfined :
      (inode : ℕ)
      → IsConfined closed os Any (read_dir os inode) (read_dir (sandbox closed os) inode)
  unfolding read_dir
  read_dir-IsConfined inode = >>=-Agree (known closed os inode) λ path h.
      >>=-Agree (asked closed os (os.read_dir path) _ λ d. rw h) λ stream _.
        >>=-Agree (above_part inode (parent path) λ up e. closed.above path up h e) λ above _.
          kept closed os (
            read_stream stream
              (directory_named inode (b'.' ∷ []) ∷ directory_named above (b'.' ∷ b'.' ∷ []) ∷ []))

  removal_part :
      (path : Bytes) (is_dir : Bool)
      → inside path ≡ true
      → IsConfined closed os Any
          (remove_at os path is_dir)
          (remove_at (sandbox closed os) path is_dir)
  removal_part path true h = done closed os _ _ λ d. rw h
  removal_part path false h = done closed os _ _ λ d. rw h

  pub remove-IsConfined :
      (inode : ℕ) → IsConfined closed os Any (remove os inode) (remove (sandbox closed os) inode)
  unfolding remove
  remove-IsConfined inode = >>=-Agree (known closed os inode) λ path h.
      >>=-Agree (looked_at closed os path (closed.itself path h))
        λ meta _. >>=-Agree (removal_part path meta.file_type.is_dir h) λ _ _. forgotten inode

  clearing_part :
      (inode : ℕ) (found : Option ℕ)
      → IsConfined closed os Any
          (clear_destination os inode found)
          (clear_destination (sandbox closed os) inode found)
  clearing_part inode none = kept closed os _
  clearing_part inode (some dest_inode) =
      >>=-Agree (get_attr-IsConfined closed os dest_inode) λ dest _.
        >>=-Agree (get_attr-IsConfined closed os inode) λ self _.
          >>=-Agree (kept closed os (check_types dest.file_type self.file_type))
            λ _ _. remove-IsConfined dest_inode

  moving_part :
      (inode dir : ℕ) (name : Bytes)
      → IsPlain name
      → IsConfined closed os Any
          (move_entry os inode dir name)
          (move_entry (sandbox closed os) inode dir name)
  moving_part inode dir name plain = >>=-Agree (known closed os inode) λ old_path h.
      >>=-Agree (known closed os dir) λ path k.
        let below = closed.pushed path name k plain in
        >>=-Agree (done closed os (os.rename old_path (push path name)) _ λ d. rw (h, below))
          λ _ _. entered inode (push path name) below

  pub rename-IsConfined :
      (inode dir : ℕ) (name : Bytes)
      → IsPlain name
      → IsConfined closed os Any
          (rename os inode dir name)
          (rename (sandbox closed os) inode dir name)
  unfolding rename
  rename-IsConfined inode dir name plain =
      >>=-Agree (attempt-Agree (lookup-IsConfined closed os dir name plain))
        λ found _. >>=-Agree (clearing_part inode found) λ _ _. moving_part inode dir name plain
