-- ===== src/Tests/Disk.antt =====
-- Theorems on src/core/fs/disk.rs at concrete inputs: a disk whose state is its files, by path.
-- `/s/a` and `/s/b` are one file, inode 2; `/s/d` is a directory; `/e` lies outside of the root `/s`.
use azpfs.Base.{
  ℕ, ◌==◌, ◌≡◌, refl, Bool, true, false, ◌&&◌, not, some, List, [], ◌∷◌, Bytes, if◌then◌else◌,
}
use azpfs.Io.{not_found, IoError, Outcome, ok, err, map_outcome}
use azpfs.Protocol.Codes.{regular_file}
use azpfs.Protocol.Message.{lookup_req, create_req, request_id}
use azpfs.Fs.Attr.{after, from_unix, FileAttr}
use azpfs.Fs.Os.{Os, Metadata, StdFileType}
use azpfs.Fs.Paths.{push, is_absolute}
use azpfs.Fs.Texts.{inode_not_found, destination_is_dir}
use azpfs.Fs.Disk.{Fs, disk_fs, from_std, get_path, lookup, get_attr, remove_path, insert_path}
use azpfs.Fs.Disk.Entries.{remove, rename, disk_backend}
use azpfs.Fs.Disk.Renaming.{rename-over_itself, rename-onto_directory, rename-moves_one_path}
use azpfs.Fs.Disk.Resolution.{lookup-resolves, lookup-escapes, IsRefused, remove-IsRefused}
use azpfs.Server.Handlers.{handle_msg, reply_with}
use azpfs.Server.Clients.Serial.{state_after}
use azpfs.Server.OnDisk.Inodes.{looks_up, given_inode-IsKnown}
use azpfs.Server.OnDisk.{handle_msg-keeps_paths}

abbrev pub same : Bytes → Bytes → Bool
same [] [] = true
same (a ∷ p) (b ∷ q) = (a == b) && same p q
same _ _ = false

abbrev pub Files : Type 0
Files = List (Bytes × Metadata)

abbrev pub no_file : IoError
no_file = record { kind = not_found; text = [] }

abbrev pub find : Bytes → Files → Outcome Metadata
find path [] = err no_file
find path ((p, meta) ∷ files) = if same path p then ok meta else find path files

abbrev pub without : Bytes → Files → Files
without path [] = []
without path ((p, meta) ∷ files) =
    if same path p then without path files else (p, meta) ∷ without path files

abbrev pub moved : Bytes → Bytes → Files → Files
moved old new [] = []
moved old new ((p, meta) ∷ files) = (if same old p then new else p, meta) ∷ moved old new files

-- Handles are paths, and files have no content.
abbrev pub files_os : Os
files_os = record {
  State = Files;
  Handle = Bytes;
  o_excl_bit = 7;
  o_trunc_bit = 9;
  metadata = find;
  open_file = λ opts path s. (ok path, s);
  file_metadata = find;
  set_len = λ handle len s. (ok tt, s);
  set_times = λ handle accessed modified s. (ok tt, s);
  seek = λ handle offset s. (ok tt, s);
  read = λ handle len s. (ok [], s);
  write_all = λ handle content s. (ok tt, s);
  set_permissions = λ path mode s. (ok tt, s);
  chown = λ path uid gid s. (ok tt, s);
  create_dir = λ path s. (ok tt, s);
  read_dir = λ path s. ok [];
  remove_dir_all = λ path s. (ok tt, without path s);
  remove_file = λ path s. (ok tt, without path s);
  rename = λ old new s. (ok tt, moved old new s);
}

abbrev pub type_of : Bool → StdFileType
type_of is_dir = record {
  is_fifo = false;
  is_char_device = false;
  is_block_device = false;
  is_dir = is_dir;
  is_file = not is_dir;
  is_symlink = false;
  is_socket = false;
}

abbrev pub file_at : ℕ → Bool → Metadata
file_at ino is_dir = record {
  ino = ino;
  file_type = type_of is_dir;
  len = 5;
  blocks = 8;
  accessed = ok (after 0);
  modified = ok (after 0);
  ctime = 0;
  mode = 0o100644;
  nlink = 2;
  uid = 0;
  gid = 0;
  rdev = 0;
  blksize = 4096;
}

abbrev pub root : Bytes
root = b'/' ∷ b's' ∷ []

abbrev pub below : ℕ → Bytes
below c = b'/' ∷ b's' ∷ b'/' ∷ c ∷ []

abbrev pub outside : Bytes
outside = b'/' ∷ b'e' ∷ []

abbrev pub files : Files
files =
    (root, file_at 7 true)
    ∷ (below b'a', file_at 2 false)
    ∷ (below b'b', file_at 2 false)
    ∷ (below b'd', file_at 3 true)
    ∷ (outside, file_at 9 false)
    ∷ []

-- The inodes 2 and 3 have been looked up.
abbrev pub started : Fs files_os
started = record (disk_fs root files) {
  inode_map =
      insert_path 3 (below b'd') (insert_path 2 (below b'a') (disk_fs root files).inode_map);
}

abbrev pub attrs_of : Outcome FileAttr → FileAttr
attrs_of (ok a) = a
attrs_of _ = record {
  file_type = regular_file;
  size = 0;
  blocks = 0;
  access_time = after 0;
  modification_time = after 0;
  change_time = after 0;
  permissions = 0;
  n_hard_links = 0;
  uid = 0;
  gid = 0;
  rdev = 0;
  block_size = 0;
}

abbrev attrs : ℕ → FileAttr
attrs inode = attrs_of (get_attr files_os inode started).0

rename-over_itself_example : rename files_os 2 1 (b'b' ∷ []) started ≡ (
  err inode_not_found,
  record started { inode_map = remove_path 2 started.inode_map; disk = without (below b'a') files },
)
unfolding lookup get_path push is_absolute get_attr from_std from_unix remove
rename-over_itself_example =
    rename-over_itself files_os 2 1 (b'b' ∷ []) started started
      (record started {
        inode_map = remove_path 2 started.inode_map;
        disk = without (below b'a') files;
      })
      (attrs 2) refl refl (λ e. cc) refl

rename-onto_directory_example :
    ((rename files_os 2 1 (b'd' ∷ []) started).0 ≡ err destination_is_dir)
    × ((rename files_os 2 1 (b'd' ∷ []) started).1.disk ≡ files)
unfolding lookup get_path push is_absolute get_attr from_std from_unix
rename-onto_directory_example =
    rename-onto_directory files_os 2 1 (b'd' ∷ []) started started 3 (attrs 3) (attrs 2) refl refl
      refl refl

rename-moves_one_path_example :
    (dir_path : Bytes) × (started.inode_map 1 ≡ some dir_path)
    × ((rename files_os 3 1 (b'n' ∷ []) started).1.inode_map
        ≡ insert_path 3 (push dir_path (b'n' ∷ [])) started.inode_map)
unfolding rename lookup get_path push is_absolute
rename-moves_one_path_example =
    rename-moves_one_path files_os 3 1 (b'n' ∷ []) started started no_file refl refl

lookup-resolves_example :
    (map_outcome (λ meta. meta.ino) (find (push root (b'b' ∷ [])) files) ≡ ok 2)
    × (started.inode_map 2 ≡ some (below b'a'))
unfolding lookup get_path push is_absolute
lookup-resolves_example = lookup-resolves files_os 1 (b'b' ∷ []) root started started 2 refl refl

remove-IsRefused_example : IsRefused files_os 2 (remove files_os 2 started).1
unfolding remove get_path
remove-IsRefused_example = remove-IsRefused files_os 2 started refl

lookup-escapes_example :
    ((lookup files_os 3 outside started).0 ≡ ok 9)
    × ((lookup files_os 3 outside started).1.inode_map 9 ≡ some outside)
unfolding is_absolute
lookup-escapes_example =
    lookup-escapes files_os 3 outside (below b'd') started (file_at 9 false) refl refl refl refl

handle_msg-keeps_paths_example :
    (handle_msg (disk_backend files_os) (lookup_req 1 1 (b'b' ∷ [])) started).1.inode_map 2
    ≡ some (below b'a')
handle_msg-keeps_paths_example =
    handle_msg-keeps_paths files_os (lookup_req 1 1 (b'b' ∷ [])) started 2 (below b'a') tt refl

-- `d` is looked up, and then a file made in the root.
given_inode-IsKnown_example :
    (path : Bytes) × ((handle_msg
          (disk_backend files_os)
          (lookup_req 1 1 (b'd' ∷ []))
          started).1.inode_map
        3
      ≡ some path)
    × ((state_after
            (disk_backend files_os)
            ((0, create_req 2 1 0 0 false (b'b' ∷ [])) ∷ [])
            (handle_msg (disk_backend files_os) (lookup_req 1 1 (b'd' ∷ [])) started).1).inode_map
          3
        ≡ some path)
unfolding handle_msg reply_with lookup get_path push is_absolute request_id
given_inode-IsKnown_example =
    given_inode-IsKnown files_os (lookup_req 1 1 (b'd' ∷ [])) started 3
      ((0, create_req 2 1 0 0 false (b'b' ∷ [])) ∷ []) looks_up refl (tt, tt)
